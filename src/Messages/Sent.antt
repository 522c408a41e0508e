-- ===== src/Messages/Sent.antt =====
-- The life of a message that is sent, and the window of live messages.
-- (frontend/src/hooks/useMessages.ts)
use quiteline.Base.{
  ◌≡◌, refl, ap, Bool, true, false, not, ◌&&◌, List, [], ◌∷◌, ◌++◌, map, some, ℕ, zero, suc, ◌-◌,
  ◌≤◌, Str, str_eq, str_eq_iff, str_eq_refl, arith, inl, inr, All, Any, keep, any, length,
  Bool-cases, drop, length-append, if◌then◌else◌,
}
use quiteline.Js.Slice.{last, length-last}
use quiteline.Wire.{Identity, EncryptedMessage, DecryptedMessage, sent}
use quiteline.Messages.State.{Hook, Options}
use quiteline.Messages.Paging.{exit_context_mode}
use quiteline.Messages.Display.{is_sent, drop_confirmed}
use quiteline.Messages.Sending.{
  live_limit, push_live, submit_message, bubble, confirm, give_up, on_sent, MessageDraft, mutate,
}

Any-drop :
    {A : Type 0} (P : A → Type 0) (n : ℕ) (xs : List A) (x : A)
    → n ≤ length xs
    → P x
    → Any P (drop n (xs ++ x ∷ []))
Any-drop P zero [] x h p = inl p
Any-drop P zero (y ∷ ys) x h p = inr (Any-drop P zero ys x (omega arith) p)
Any-drop P (suc n) [] x h p = absurd (omega arith)
Any-drop P (suc n) (y ∷ ys) x h p = Any-drop P n ys x (omega arith) p

-- The live window never holds more than 200 messages, and it holds the message just added.
pub push_live_window :
    (msg : EncryptedMessage) (prev : List EncryptedMessage)
    → (length (push_live msg prev) ≤ live_limit) × Any (λ m. m ≡ msg) (push_live msg prev)
unfolding push_live last
push_live_window msg prev = (
  length-last live_limit (prev ++ msg ∷ []),
  Any-drop (λ m. m ≡ msg) (length (prev ++ msg ∷ []) - live_limit) prev msg
      (omega (arith, length-append prev (msg ∷ []))) refl,
)

-- No bubble of the list has the id.
abbrev pub LacksId : Str → List DecryptedMessage → Type 0
LacksId k = All (λ m. str_eq m.id k ≡ false)

map-confirm_absent :
    (c id : Str) (xs : List DecryptedMessage) → LacksId c xs → map (confirm c id) xs ≡ xs
map-confirm_absent c id [] h = refl
map-confirm_absent c id (x ∷ xs) h = rw (h.0, map-confirm_absent c id xs h.1)

map-confirm_last :
    (c id : Str) (xs : List DecryptedMessage) (b : DecryptedMessage)
    → LacksId c xs
    → b.id ≡ c
    → map (confirm c id) (xs ++ b ∷ []) ≡ xs ++ record b { id = id; status = some sent } ∷ []
map-confirm_last c id [] b h e = rw (e, str_eq_refl c)
map-confirm_last c id (x ∷ xs) b h e = rw (h.0, map-confirm_last c id xs b h.1 e)

map-give_up_absent : (c : Str) (xs : List DecryptedMessage) → LacksId c xs → map (give_up c) xs ≡ xs
map-give_up_absent c [] h = refl
map-give_up_absent c (x ∷ xs) h = rw (h.0, map-give_up_absent c xs h.1)

keep-append_last :
    (p : DecryptedMessage → Bool) (xs : List DecryptedMessage) (b : DecryptedMessage)
    → p b ≡ false
    → keep p (xs ++ b ∷ []) ≡ keep p xs
keep-append_last p [] b e = rw e
keep-append_last p (x ∷ xs) b e = rw (keep-append_last p xs b e)

pending-on_sent :
    (c : Str) (message : EncryptedMessage) (h : Hook)
    → (on_sent c message h).pending ≡ map (confirm c message.id) h.pending
unfolding on_sent
pending-on_sent c message h = ground arith

module _ (trim : Str → Str) (o : Options) (me : Identity) (uuid now : Str) (h h' : Hook)
    (draft : MessageDraft) (known : o.identity ≡ some me)
    (submitted : submit_message trim o false uuid now h ≡ (h', mutate draft)) where
  pending-submit : h'.pending ≡ h.pending ++ bubble o me draft ∷ []
  unfolding submit_message
  pending-submit = ground arith

  -- The life of a message that the server takes. `submitMessage` adds one bubble, with the draft's
  -- id, to those that wait; if no other bubble has that id, the answer turns just this one into a
  -- sent message with the server's id; and once the decrypted list has that id, dropping the
  -- confirmed bubbles leaves what it would have left without the message.
  pub sent_life :
      (message : EncryptedMessage) (ds : List DecryptedMessage)
      → LacksId draft.client_id h.pending
      → any (λ d. str_eq d.id message.id) ds ≡ true
      → (h'.pending ≡ h.pending ++ bubble o me draft ∷ [])
        × ((on_sent draft.client_id message h').pending
            ≡ h.pending ++ record (bubble o me draft) { id = message.id; status = some sent } ∷ [])
        × ((drop_confirmed (record (on_sent draft.client_id message h') { decrypted = ds })).pending
            ≡ (drop_confirmed (record h { decrypted = ds })).pending)
  unfolding drop_confirmed bubble
  sent_life message ds fresh seen =
      let second : (on_sent draft.client_id message h').pending
          ≡ h.pending ++ record (bubble o me draft) { id = message.id; status = some sent } ∷ [] =
        rw (pending-on_sent draft.client_id message h', pending-submit)
          (map-confirm_last draft.client_id message.id h.pending (bubble o me draft) fresh refl) in
      (
        pending-submit,
        second,
        rw second (
            keep-append_last (λ m. not (is_sent m && any (λ d. str_eq d.id m.id) ds)) h.pending
              (record (bubble o me draft) { id = message.id; status = some sent }) (rw seen)),
      )

any-Any :
    (k : Str) (xs : List EncryptedMessage)
    → any (λ m. str_eq m.id k) xs ≡ true
    → Any (λ m. m.id ≡ k) xs
any-Any k [] e = cc
any-Any k (x ∷ xs) e = elim (Bool-cases (str_eq x.id k)) [
  | inl here ↦ inl ((str_eq_iff x.id k).0 here)
  | inr other ↦ inr (any-Any k xs (rw other at e))
]

Any-id :
    (message : EncryptedMessage) (xs : List EncryptedMessage)
    → Any (λ m. m ≡ message) xs
    → Any (λ m. m.id ≡ message.id) xs
Any-id message [] a = a
Any-id message (x ∷ xs) (inl e) = inl (ap (λ (m : EncryptedMessage). m.id) e)
Any-id message (x ∷ xs) (inr a) = inr (Any-id message xs a)

live-on_sent :
    (c : Str) (message : EncryptedMessage) (h : Hook)
    → (on_sent c message h).live
      ≡ (if any (λ m. str_eq m.id message.id) h.live then h.live else push_live message h.live)
unfolding on_sent exit_context_mode
live-on_sent c message h = ground arith

live_has :
    (message : EncryptedMessage) (xs : List EncryptedMessage)
    → Any
        (λ m. m.id ≡ message.id)
        (if any (λ m. str_eq m.id message.id) xs then xs else push_live message xs)
live_has message xs = elim (Bool-cases (any (λ m. str_eq m.id message.id) xs)) [
  | inl there ↦ rw there (any-Any message.id xs there)
  | inr new ↦ rw new (Any-id message (push_live message xs) (push_live_window message xs).1)
]

-- When the server has taken a message, the live window has a message with its id, and the hook is
-- not in context mode, in which live messages are not shown (if its ref was up to date).
pub on_sent_visible :
    (c : Str) (message : EncryptedMessage) (h : Hook)
    → h.in_context_ref ≡ h.is_in_context_mode
    → Any (λ m. m.id ≡ message.id) (on_sent c message h).live
      × ((on_sent c message h).is_in_context_mode ≡ false)
unfolding on_sent exit_context_mode
on_sent_visible c message h e =
    (rw (live-on_sent c message h) (live_has message h.live), ground arith)
