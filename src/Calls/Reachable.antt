-- ===== src/Calls/Reachable.antt =====
-- The invariant in every state that a call can reach. (frontend/src/components/MessengerApp.tsx)
use quiteline.Base.{
  ◌≡◌, ◌≢◌, refl, true, false, List, Option, none, some, Str, str_eq, arith, ◌⊎◌, inl, inr, subst,
  sym, not, ◌&&◌,
}
use quiteline.Wire.{Identity, Signal}
use quiteline.Calls.State.{
  Call, connecting, Env, Timer, answer_timer, connection_timer, no_media, not_answered,
}
use quiteline.Calls.Cleanup.{
  cleanup_call, end_call, decline_incoming_call, timer_fired, with_error, is_connected,
  tell_not_answered, tell_declined,
}
use quiteline.Calls.Media.{Media}
use quiteline.Calls.Handlers.{begin_call, resume_call, begin_answer, resume_answer}
use quiteline.Calls.Steps.{
  start_call, answer_call, Step, start, reply, refuse, end, event, fire, second, Reach, here, next,
  fresh,
}
use quiteline.Calls.Invariant.{Inv, cleanup_call-Inv}
use quiteline.Calls.EventsInvariant.{handle_call_event-Inv, if-Inv}
use quiteline.Calls.HandlersInvariant.{
  resume_call-Inv, resume_answer-Inv, begin_call-Inv, begin_answer-incoming,
}

start_call-Inv :
    (env : Env) (peers : List Identity) (target call_id : Str) (media : Media) (c : Call)
    → Inv c
    → Inv (start_call env peers target call_id media c)
unfolding start_call
start_call-Inv env peers target call_id media c h =
    go (begin_call env peers target c c) env.identity (begin_call-Inv env peers target c h)
  where
    go :
        (b : Call × Option Identity) (me : Option Identity)
        → Inv b.0 × ((b.1 ≡ none) ⊎ (b.0.incoming ≡ none))
        → Inv (elim b.1 [
          | none ↦ b.0
          | some peer ↦ elim me [
            | none ↦ b.0
            | some me ↦ resume_call env me peer call_id media c b.0
          ]
        ])
    go (d, none) me (i, w) = i
    go (d, some peer) none (i, w) = i
    go (d, some peer) (some me) (i, inl w) = cc
    go (d, some peer) (some me) (i, inr w) = resume_call-Inv env me peer call_id media c d w

answer_call-Inv :
    (env : Env) (rate : Str) (media : Media) (c : Call) → Inv c → Inv (answer_call env rate media c)
unfolding answer_call
answer_call-Inv env rate media c h =
    go (begin_answer env c c) env.identity (begin_answer-incoming env c)
  where
    go :
        (b : Call × Option Signal) (me : Option Identity)
        → ((b.1 ≡ none) × (b.0 ≡ c)) ⊎ ((b.1 ≢ none) × (b.0.state ≡ connecting) × (me ≢ none))
        → Inv (elim b.1 [
          | none ↦ b.0
          | some call ↦ elim me [
            | none ↦ b.0
            | some me ↦ resume_answer env me call rate media c b.0
          ]
        ])
    go (d, none) me (inl w) = subst Inv (sym w.1) h
    go (d, none) me (inr w) = absurd (w.0 refl)
    go (d, some call) none (inl w) = cc
    go (d, some call) none (inr w) = absurd (w.2 refl)
    go (d, some call) (some me) (inl w) = cc
    go (d, some call) (some me) (inr w) = resume_answer-Inv env me call rate media c d w.1

timer_fired-Inv : (env : Env) (t : Timer) (c : Call) → Inv c → Inv (timer_fired env t c c)
unfolding timer_fired
timer_fired-Inv env (answer_timer id peer room me) c h =
    if-Inv (str_eq c.active_call id)
      (cleanup_call env false true c
        (with_error not_answered (tell_not_answered env id peer room me c)))
      c
      (cleanup_call-Inv env false true c
        (with_error not_answered (tell_not_answered env id peer room me c)))
      h
timer_fired-Inv env (connection_timer id s) c h =
    if-Inv (str_eq c.active_call id && not (is_connected s))
      (cleanup_call env false true c (with_error no_media c)) c
      (cleanup_call-Inv env false true c (with_error no_media c)) h

-- Every step keeps the invariant.
Step-Inv : {c d : Call} → Step c d → Inv c → Inv d
unfolding decline_incoming_call end_call
Step-Inv {c} (start env peers target id media) h = start_call-Inv env peers target id media c h
Step-Inv {c} (reply env rate media) h = answer_call-Inv env rate media c h
Step-Inv {c} (refuse env) h =
    cleanup_call-Inv env false false c (tell_declined env c.incoming env.identity c)
Step-Inv {c} (end env n) h = cleanup_call-Inv env n false c c
Step-Inv {c} (event env rate s) h = handle_call_event-Inv env rate s c h
Step-Inv {c} (fire env t e) h = timer_fired-Inv env t c h
Step-Inv {c} (second n) h = ground arith

-- In every state that a client can reach from a fresh start, by its own handlers, timers and all
-- events, each seeing the state as it is: while it is idle, ringing or has failed, no call is under
-- way, the microphone is released and no sound has connected; while it rings it has an incoming
-- call, and it has none while it is idle, has failed, calls, or a call with an id is under way; it
-- is connected only by sound, and then no timer runs; and while it calls, the timer that gives the
-- call up runs for that very call.
pub Reach-Inv : {c : Call} → Reach fresh c → Inv c
Reach-Inv here = ground arith
Reach-Inv (next r s) = Step-Inv s (Reach-Inv r)
