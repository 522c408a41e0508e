-- ===== src/Realtime/Typing.antt =====
-- Which users the ticks of the interval leave as typing. (frontend/src/components/MessengerApp.tsx)
use quiteline.Base.{
  zero, suc, ◌*◌, ◌≡◌, refl, ◌∙◌, Bool, true, false, List, [], ◌∷◌, Option, none, some, ℕ, ◌+◌, ◌≤◌,
  ◌&&◌, subst, ap, sym, Str, str_eq, str_eq_iff, str_eq_refl, truthy, ltb, if◌then◌else◌, keep,
  arith, Bool-cases, inl, inr, ℤ,
}
use quiteline.Js.OrderedMap.{get, set, get-set, Lacks, IsDistinct, set-IsDistinct, get_of_Lacks}
use quiteline.Wire.{typing}
use quiteline.Realtime.State.{Hub, Scene, Typing}
use quiteline.Realtime.Handle.{handle_realtime_event, dispatch, on_typing, expire_typing, run_ticks}

abbrev is_live : ℕ → Str × Typing → Bool
is_live t u = ltb t u.1.until

keep-Lacks : (t : ℕ) (k : Str) (m : List (Str × Typing)) → Lacks k m → Lacks k (keep (is_live t) m)
keep-Lacks t k [] h = tt
keep-Lacks t k (u ∷ m) h = ground (arith, keep-Lacks t k m h.1)

-- What is kept of an entry under its key.
abbrev pub kept : ℕ → Option Typing → Option Typing
kept t none = none
kept t (some v) = if ltb t v.until then some v else none

get-keep :
    (t : ℕ) (k : Str) (m : List (Str × Typing))
    → IsDistinct m
    → get k (keep (is_live t) m) ≡ kept t (get k m)
unfolding get
get-keep t k [] d = refl
get-keep t k ((j, v) ∷ m) d = elim (Bool-cases (str_eq j k)) [
  | inl e ↦
      let lacks : Lacks k m = subst (λ (i : Str). Lacks i m) ((str_eq_iff j k).0 e) d.0 in
      rw e (ground (arith, get_of_Lacks k (keep (is_live t) m) (keep-Lacks t k m lacks)))
  | inr e ↦ rw e (ground (arith, get-keep t k m d.1))
]

-- After another user's typing event that has come at a time, the next tick of the interval, at a
-- later one, leaves that user among the typing ones just when the event says that they type and less
-- than 3500 milliseconds have gone by, and leaves anybody else as it would have without the event.
pub typing_shown :
    (parse_date : Str → Option ℤ) (s : Scene) (user name at k : Str) (is_typing : Bool) (t : ℕ)
    (h : Hub)
    → truthy s.current_user ≡ true
    → str_eq user s.current_user ≡ false
    → s.now ≤ t
    → IsDistinct h.typing_users
    → get k
        (expire_typing t
          (handle_realtime_event parse_date s (typing user name is_typing at) h)).typing_users
      ≡ (if str_eq user k
          then if is_typing && ltb t (s.now + 3500)
            then some (record { display_name = name; until = s.now + 3500 })
            else none
          else get k (expire_typing t h).typing_users)
unfolding handle_realtime_event dispatch on_typing expire_typing
typing_shown parse_date s user name at k is_typing t h c u l d =
    let v : Typing = record {
      display_name = name;
      until = if is_typing then s.now + 3500 else 0;
    } in
    rw (c, u)
      (get-keep t k (set user v h.typing_users) (set-IsDistinct user v h.typing_users d)
        ∙ ap (kept t) (get-set user k v h.typing_users)
        ∙ kept-if (str_eq user k) is_typing)
  where
    kept-if :
        (b i : Bool)
        → kept t (
            if b
            then some (record { display_name = name; until = if i then s.now + 3500 else 0 })
            else get k h.typing_users)
          ≡ (if b
              then if i && ltb t (s.now + 3500)
                then some (record { display_name = name; until = s.now + 3500 })
                else none
              else get k (keep (λ (u : Str × Typing). ltb t u.1.until) h.typing_users))
    kept-if true true = refl
    kept-if true false = ground arith
    kept-if false i = sym (get-keep t k h.typing_users d)

-- A later tick leaves what it would have left without an earlier one.
keep_twice :
    (t u : ℕ) (m : List (Str × Typing))
    → t ≤ u
    → keep (is_live u) (keep (is_live t) m) ≡ keep (is_live u) m
keep_twice t u [] h = refl
keep_twice t u (x ∷ m) h = ground (arith, keep_twice t u m h)

run_ticks_last :
    (first n : ℕ) (h : Hub)
    → (run_ticks first n h).typing_users ≡ (expire_typing (first + n * 1000) h).typing_users
unfolding run_ticks expire_typing
run_ticks_last first zero h = ap (λ (t : ℕ). keep (is_live t) h.typing_users) (omega arith)
run_ticks_last first (suc n) h =
    ap (keep (is_live (first + suc n * 1000))) (run_ticks_last first n h)
    ∙ keep_twice (first + n * 1000) (first + suc n * 1000) h.typing_users (omega arith)

run_ticks_shown :
    (parse_date : Str → Option ℤ) (s : Scene) (user name at k : Str) (is_typing : Bool)
    → (first n : ℕ) (h : Hub) → truthy s.current_user ≡ true
    → str_eq user s.current_user ≡ false
    → s.now ≤ first
    → IsDistinct h.typing_users
    → get k
        (run_ticks first n
          (handle_realtime_event parse_date s (typing user name is_typing at) h)).typing_users
      ≡ (if str_eq user k
          then if is_typing && ltb (first + n * 1000) (s.now + 3500)
            then some (record { display_name = name; until = s.now + 3500 })
            else none
          else get k (run_ticks first n h).typing_users)
run_ticks_shown parse_date s user name at k is_typing first n h c u l d =
    let after = handle_realtime_event parse_date s (typing user name is_typing at) h in
    ap (get k) (run_ticks_last first n after)
    ∙ typing_shown parse_date s user name at k is_typing (first + n * 1000) h c u (omega arith) d
    ∙ ap
        (λ (m : List (Str × Typing)).
          if str_eq user k
          then if is_typing && ltb (first + n * 1000) (s.now + 3500)
            then some (record { display_name = name; until = s.now + 3500 })
            else none
          else get k m)
        (sym (run_ticks_last first n h))

-- The tick that finds a user's time over comes 4500 milliseconds after the event at the latest.
last_tick :
    (now first : ℕ)
    → now ≤ first
    → first ≤ now + 1000
    → (m : ℕ) × (first + m * 1000 ≤ now + 4500) × (ltb (first + m * 1000) (now + 3500) ≡ false)
last_tick now first l f = elim (Bool-cases (ltb first (now + 500))) [
  | inl e ↦ (4, ground (arith, e), ground (arith, e))
  | inr e ↦ (3, ground (arith, e), ground (arith, e))
]

-- After another user's typing event, and any number of ticks of the interval each second from then,
-- that user is among the typing ones just when the event says that they type and at the last tick
-- less than 3500 milliseconds had gone by; anybody else is as without the event. If the first tick
-- comes within a second of the event, a tick at most 4500 milliseconds after it leaves the user out.
pub run_ticks-typing :
    (parse_date : Str → Option ℤ) (s : Scene) (user name at k : Str) (is_typing : Bool)
    → (first n : ℕ) (h : Hub) → truthy s.current_user ≡ true
    → str_eq user s.current_user ≡ false
    → s.now ≤ first
    → first ≤ s.now + 1000
    → IsDistinct h.typing_users
    → let after = handle_realtime_event parse_date s (typing user name is_typing at) h in
      (get k (run_ticks first n after).typing_users ≡ (
        if str_eq user k
        then if is_typing && ltb (first + n * 1000) (s.now + 3500)
          then some (record { display_name = name; until = s.now + 3500 })
          else none
        else get k (run_ticks first n h).typing_users))
      × ((m : ℕ) × (first + m * 1000 ≤ s.now + 4500)
          × (get user (run_ticks first m after).typing_users ≡ none))
run_ticks-typing parse_date s user name at k is_typing first n h c u l f d =
    let (m, early, over) = last_tick s.now first l f in
    (
      run_ticks_shown parse_date s user name at k is_typing first n h c u l d,
      (
        m,
        early,
        run_ticks_shown parse_date s user name at user is_typing first m h c u l d
            ∙ rw (str_eq_refl user, over) (ground arith),
      ),
    )
