-- ===== src/Messages/Cached.antt =====
-- The cache of decrypted messages against decrypting everything each time.
-- (frontend/src/hooks/useMessages.ts)
use quiteline.Base.{
  ◌≡◌, subst, refl, ◌∙◌, true, false, List, [], ◌∷◌, map, Option, some, ℤ, Str, str_eq, str_eq_refl,
  arith, ◌⊎◌, inl, inr, All, Any, keep, Bool-cases,
}
use quiteline.Js.OrderedMap.{get, set, get-set}
use quiteline.ById.{HasDistinctIds}
use quiteline.ById.Filter.{keep-HasDistinctIds, Any-keep, All-of_Any, All-at, keep_absent}
use quiteline.Wire.{Identity, EncryptedMessage, PlainMessage}
use quiteline.Messages.State.{Hook, CacheEntry}
use quiteline.Messages.Decrypting.{
  cache_key, decrypt_one, is_stale, collect, store, entry, start_decrypting, finish_decrypting,
}

module _ (parse_date : Str → Option ℤ) (me : Option Identity)
    (decode : EncryptedMessage → Option PlainMessage) where
  -- What is cached for the message under its present key is what decoding it now gives.
  abbrev pub IsTrueTo : List (Str × CacheEntry) → EncryptedMessage → Type 0
  IsTrueTo cache msg =
      (is_stale parse_date me cache msg ≡ true)
      ⊎ (get msg.id cache ≡ some (entry parse_date me decode msg))

  collect_of_entries :
      (msgs : List EncryptedMessage) (cache : List (Str × CacheEntry))
      → All (λ m. get m.id cache ≡ some (entry parse_date me decode m)) msgs
      → collect msgs cache ≡ map (decrypt_one parse_date me decode) msgs
  unfolding collect
  collect_of_entries [] cache h = refl
  collect_of_entries (m ∷ ms) cache h = rw (h.0, collect) (rw (collect_of_entries ms cache h.1))

  entry_not_stale :
      (m : EncryptedMessage) (cache : List (Str × CacheEntry))
      → get m.id cache ≡ some (entry parse_date me decode m)
      → is_stale parse_date me cache m ≡ false
  entry_not_stale m cache h = ground (arith, str_eq_refl (cache_key parse_date me m))

  none_stale :
      (msgs : List EncryptedMessage) (cache : List (Str × CacheEntry))
      → All (λ m. get m.id cache ≡ some (entry parse_date me decode m)) msgs
      → keep (is_stale parse_date me cache) msgs ≡ []
  none_stale [] cache h = refl
  none_stale (m ∷ ms) cache h = rw (entry_not_stale m cache h.0) (none_stale ms cache h.1)

  store-absent :
      (work : List EncryptedMessage) (cache : List (Str × CacheEntry)) (k : Str)
      → All (λ y. str_eq y.id k ≡ false) work
      → get k (store parse_date me decode work cache) ≡ get k cache
  unfolding store
  store-absent [] cache k h = refl
  store-absent (m ∷ ms) cache k h =
      store-absent ms (set m.id (entry parse_date me decode m) cache) k h.1
      ∙ get-set m.id k (entry parse_date me decode m) cache
      ∙ rw h.0

  store-present :
      (work : List EncryptedMessage) (cache : List (Str × CacheEntry)) (m : EncryptedMessage)
      → HasDistinctIds (λ m. m.id) work
      → Any (λ y. y ≡ m) work
      → get m.id (store parse_date me decode work cache) ≡ some (entry parse_date me decode m)
  unfolding store
  store-present [] cache m h a = elim a [ ]
  store-present (x ∷ xs) cache m h (inl e) =
      subst
        (λ (z : EncryptedMessage).
          get z.id (store parse_date me decode xs (set x.id (entry parse_date me decode x) cache))
          ≡ some (entry parse_date me decode z))
        e
        (store-absent xs (set x.id (entry parse_date me decode x) cache) x.id h.0
          ∙ get-set x.id x.id (entry parse_date me decode x) cache
          ∙ rw (str_eq_refl x.id))
  store-present (x ∷ xs) cache m h (inr a) =
      store-present xs (set x.id (entry parse_date me decode x) cache) m h.1 a

  stored :
      (encrypted : List EncryptedMessage) (cache : List (Str × CacheEntry))
      → HasDistinctIds (λ m. m.id) encrypted
      → All (IsTrueTo cache) encrypted
      → All
          (λ m.
            get m.id
              (store parse_date me decode (keep (is_stale parse_date me cache) encrypted) cache)
            ≡ some (entry parse_date me decode m))
          encrypted
  stored encrypted cache d h = All-of_Any _ encrypted (λ m a.
      elim (Bool-cases (is_stale parse_date me cache m)) [
        | inl old ↦
            store-present (keep (is_stale parse_date me cache) encrypted) cache m
              (keep-HasDistinctIds (λ m. m.id) (is_stale parse_date me cache) encrypted d)
              (Any-keep (is_stale parse_date me cache) m encrypted a old)
        | inr current ↦
            store-absent (keep (is_stale parse_date me cache) encrypted) cache m.id
              (keep_absent (λ m. m.id) (is_stale parse_date me cache) m encrypted d a current)
            ∙ of_current m current (All-at (IsTrueTo cache) m encrypted h a)
      ])
    where
      of_current :
          (m : EncryptedMessage)
          → is_stale parse_date me cache m ≡ false
          → IsTrueTo cache m
          → get m.id cache ≡ some (entry parse_date me decode m)
      of_current m current (inl old) = cc
      of_current m current (inr same) = same

  start_current :
      (encrypted : List EncryptedMessage) (h : Hook)
      → keep (is_stale parse_date me h.cache) encrypted ≡ []
      → ((start_decrypting parse_date me encrypted h).1 ≡ [])
        × ((start_decrypting parse_date me encrypted h).0.decrypted ≡ collect encrypted h.cache)
  unfolding start_decrypting
  start_current [] h e = (refl, refl)
  start_current (m ∷ ms) h e = (rw (e, start_decrypting), rw (e, start_decrypting))

  -- If no id stands twice in the list, and what the cache holds for its messages under their
  -- present keys is what decoding them gives, then a finished round of the effect shows every
  -- message of the list, in its order, as decoding it gives; and the effect that runs next,
  -- whatever the secret is by then, has nothing to decrypt and shows the same.
  pub finish_decrypting_complete :
      (encrypted : List EncryptedMessage) (h : Hook)
      → HasDistinctIds (λ m. m.id) encrypted
      → All (IsTrueTo h.cache) encrypted
      → let h' =
          finish_decrypting parse_date me decode false encrypted
            (keep (is_stale parse_date me h.cache) encrypted)
            h in
        (h'.decrypted ≡ map (decrypt_one parse_date me decode) encrypted)
        × (h'.is_decrypting ≡ false)
        × ((start_decrypting parse_date me encrypted h').1 ≡ [])
        × ((start_decrypting parse_date me encrypted h').0.decrypted
            ≡ map (decrypt_one parse_date me decode) encrypted)
  unfolding finish_decrypting
  finish_decrypting_complete encrypted h d t =
      let cache =
        store parse_date me decode (keep (is_stale parse_date me h.cache) encrypted) h.cache in
      let all = stored encrypted h.cache d t in
      let shown = collect_of_entries encrypted cache all in
      let (nothing, next) =
        start_current encrypted
          (finish_decrypting parse_date me decode false encrypted
            (keep (is_stale parse_date me h.cache) encrypted) h)
          (none_stale encrypted cache all) in
      (shown, refl, nothing, next ∙ shown)
