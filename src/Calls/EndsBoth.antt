-- ===== src/Calls/EndsBoth.antt =====
-- The end of a call, for the one who ends it and for the other.
-- (frontend/src/components/MessengerApp.tsx)
use mathlib.Core.List.{append_assoc, append-nil}
use quiteline.Base.{
  ◌≡◌, refl, subst, sym, ap, ◌∙◌, Bool, true, false, ◌&&◌, List, [], ◌∷◌, ◌++◌, Option, some, ℕ,
  Str, str_eq, str_eq_refl, truthy, codes, if◌then◌else◌, arith, Bool-cases, inl, inr,
}
use quiteline.Wire.{Identity, Signal, signal, CallOutcome, completed, missed}
use quiteline.Calls.State.{Call, idle, Env, Effect, publish, log_call, post_call, emit}
use quiteline.Calls.Cleanup.{
  cleanup_call, log_end, release, send_call_system_message, callee_of, opt_str,
}
use quiteline.Calls.Events.{handle_call_event, on_active}
use quiteline.Calls.Heard.{heard, hear_all, heard_one}
use quiteline.Calls.Endings.{hangup_signal, notify_hangup_sends}

-- The outcomes that are written into the log.
abbrev pub logged : List Effect → List CallOutcome
logged [] = []
logged (log_call r c d o n s ∷ es) = o ∷ logged es
logged (_ ∷ es) = logged es

-- What is done outside to log a call, and tells no user anything.
abbrev pub IsLog : Env → Call → Call → List Effect → Type 0
IsLog env seen c es =
    ((user : Str) → heard user es ≡ [])
    × (logged es ≡ (
        if env.has_session
          && truthy c.active_room
          && truthy c.caller
          && truthy (callee_of env.identity c.caller c.active_peer)
        then (if truthy seen.started_at then completed else missed) ∷ []
        else []))

abbrev entries : Env → Str → Str → Str → CallOutcome → ℕ → Option Str → List Effect
entries env room caller callee o n s =
    if env.has_session && truthy room && truthy caller && truthy callee
    then post_call room caller callee o n ∷ log_call room caller callee o n s ∷ []
    else []

out-send_call_system_message :
    (env : Env) (me : Identity) (room caller callee : Str) (o : CallOutcome) (n : ℕ)
    → (s : Option Str) (c : Call) → env.identity ≡ some me
    → (send_call_system_message env room caller callee o n s c).out
      ≡ c.out ++ entries env room caller callee o n s
unfolding send_call_system_message
out-send_call_system_message env me room caller callee o n s c i =
    elim (Bool-cases (env.has_session && truthy room && truthy caller && truthy callee)) [
      | inl e ↦ rw (i, e) (append_assoc c.out _ _)
      | inr e ↦ rw (i, e) (sym (append-nil c.out))
    ]

entries-quiet :
    (env : Env) (room caller callee : Str) (o : CallOutcome) (n : ℕ) (s : Option Str)
    → ((user : Str) → heard user (entries env room caller callee o n s) ≡ [])
      × (logged (entries env room caller callee o n s) ≡ (
          if env.has_session && truthy room && truthy caller && truthy callee then o ∷ [] else []))
entries-quiet env room caller callee o n s =
    elim (Bool-cases (env.has_session && truthy room && truthy caller && truthy callee)) [
      | inl e ↦ rw e ((λ user. refl), refl)
      | inr e ↦ rw e ((λ user. refl), refl)
    ]

log_end-IsLog :
    (env : Env) (me : Identity) (seen c : Call)
    → env.identity ≡ some me
    → (es : List Effect) × ((log_end env seen c).out ≡ c.out ++ es) × IsLog env seen c es
unfolding log_end
log_end-IsLog env me seen c i =
    let callee = callee_of env.identity c.caller c.active_peer in
    let o = if truthy seen.started_at then completed else missed in
    let es = entries env c.active_room c.caller callee o seen.duration (opt_str seen.started_at) in
    let quiet =
      entries-quiet env c.active_room c.caller callee o seen.duration (opt_str seen.started_at) in
    (
      es,
      elim (Bool-cases (truthy c.active_room && truthy c.caller && truthy callee)) [
        | inl e ↦ rw e (
            out-send_call_system_message env me c.active_room c.caller callee o seen.duration
              (opt_str seen.started_at) c i)
        | inr e ↦ rw e (sym (no_entry callee o e))
      ],
      quiet,
    )
  where
    no_entry :
        (callee : Str) (o : CallOutcome)
        → (truthy c.active_room && truthy c.caller && truthy callee) ≡ false
        → c.out
            ++ entries env c.active_room c.caller callee o seen.duration (opt_str seen.started_at)
          ≡ c.out
    no_entry callee o e = ground (arith, e, append-nil c.out)

-- A hang-up from the other user, to this one and of the call that is under way, ends it, and tells
-- nobody anything.
hangup_ends :
    (far : Env) (me : Identity) (rate : Str) (c d : Call)
    → truthy far.my_id ≡ true
    → str_eq me.user_id far.my_id ≡ false
    → far.my_id ≡ c.active_peer
    → d.active_call ≡ c.active_call
    → handle_call_event far rate (hangup_signal me c) d d ≡ release false d
unfolding handle_call_event on_active cleanup_call
hangup_ends far me rate c d t n p a =
    rw (t, n) (rw (p, str_eq_refl c.active_peer) (rw (a, str_eq_refl c.active_call) refl))

-- When a client that is logged in and whose socket is open ends the call that is under way with
-- another user and is to tell the other, then in all cases it is left with no call and no microphone,
-- and writes one entry into the log if it has a session and knows the room and both users, as
-- completed if the call had started when the handler was made and else as missed, and none otherwise; and the other client, if it is in that call and gets what has been published to it, is
-- idle with no call and no microphone, and tells nobody and logs nothing in its turn.
pub ends_both :
    (near far : Env) (me : Identity) (rate : Str) (keep_error : Bool) (seen c d : Call)
    → near.identity ≡ some me
    → near.socket_open ≡ true
    → truthy far.my_id ≡ true
    → str_eq me.user_id far.my_id ≡ false
    → far.my_id ≡ c.active_peer
    → truthy c.active_call ≡ true
    → truthy c.active_room ≡ true
    → d.active_call ≡ c.active_call
    → let ended = cleanup_call near true keep_error seen c in
      (es : List Effect) × (ended.out ≡ c.out ++ es)
      × (logged es ≡ (
          if near.has_session
            && truthy c.active_room
            && truthy c.caller
            && truthy (callee_of near.identity c.caller c.active_peer)
          then (if truthy seen.started_at then completed else missed) ∷ []
          else []))
      × (ended.active_call ≡ [])
      × (ended.has_stream ≡ false)
      × ((hear_all far rate (heard far.my_id es) d).state ≡ idle)
      × ((hear_all far rate (heard far.my_id es) d).active_call ≡ [])
      × ((hear_all far rate (heard far.my_id es) d).has_stream ≡ false)
      × ((hear_all far rate (heard far.my_id es) d).out ≡ d.out)
unfolding cleanup_call release
ends_both near far me rate k seen c d i o t n p a r same =
    let frame = publish (codes "user:" ++ c.active_peer) (signal (hangup_signal me c)) in
    let told = emit frame c in
    let (es, out, quiet) = log_end-IsLog near me seen told i in
    let peer : truthy c.active_peer ≡ true = subst (λ (x : Str). truthy x ≡ true) p t in
    let heard_up : heard far.my_id (frame ∷ es) ≡ hangup_signal me c ∷ [] =
      subst (λ (x : Str). heard x (frame ∷ es) ≡ hangup_signal me c ∷ []) (sym p)
        (heard_one c.active_peer (hangup_signal me c) es
          ∙ ap (λ (z : List Signal). hangup_signal me c ∷ z) (quiet.0 c.active_peer)) in
    let over : hear_all far rate (heard far.my_id (frame ∷ es)) d ≡ release false d =
      ap (λ (z : List Signal). hear_all far rate z d) heard_up
      ∙ hangup_ends far me rate c d t n p same in
    (
      frame ∷ es,
      ap (λ (x : Call). (log_end near seen x).out) (notify_hangup_sends near me c i o a peer r)
          ∙ out
          ∙ append_assoc c.out (frame ∷ []) es,
      quiet.1,
      refl,
      refl,
      ap (λ (x : Call). x.state) over,
      ap (λ (x : Call). x.active_call) over,
      ap (λ (x : Call). x.has_stream) over,
      ap (λ (x : Call). x.out) over,
    )
