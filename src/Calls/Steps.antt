-- ===== src/Calls/Steps.antt =====
-- The steps that a call can take. (frontend/src/components/MessengerApp.tsx)
--
-- A handler here sees the present state: nothing else is handled while the microphone is asked for.
use quiteline.Base.{Bool, false, List, [], none, some, ℕ, Str, ◌≡◌}
use quiteline.Wire.{Identity, Signal}
use quiteline.Calls.State.{Call, idle, Env, Timer, no_status, no_error}
use quiteline.Calls.Cleanup.{end_call, decline_incoming_call, timer_fired}
use quiteline.Calls.Media.{Media}
use quiteline.Calls.Handlers.{begin_call, resume_call, begin_answer, resume_answer}
use quiteline.Calls.Events.{handle_call_event}

-- `startCall` as a whole.
unfoldable pub start_call : Env → List Identity → Str → Str → Media → Call → Call
unfolding begin_call resume_call
start_call env peers target call_id media c =
    let begun = begin_call env peers target c c in
    elim begun.1 [
      | none ↦ begun.0
      | some peer ↦ elim env.identity [
        | none ↦ begun.0
        | some me ↦ resume_call env me peer call_id media c begun.0
      ]
    ]

-- `answerCall` as a whole.
unfoldable pub answer_call : Env → Str → Media → Call → Call
unfolding begin_answer resume_answer
answer_call env rate media c =
    let begun = begin_answer env c c in
    elim begun.1 [
      | none ↦ begun.0
      | some call ↦ elim env.identity [
        | none ↦ begun.0
        | some me ↦ resume_answer env me call rate media c begun.0
      ]
    ]

-- The clock of a call: seconds since it started.
abbrev pub tick : ℕ → Call → Call
tick seconds c = record c { duration = seconds }

pub data Step (c : Call) : Call → Type 0 where
  start :
      (env : Env) (peers : List Identity) (target call_id : Str) (media : Media)
      → Step c (start_call env peers target call_id media c)
  reply : (env : Env) (rate : Str) (media : Media) → Step c (answer_call env rate media c)
  refuse : (env : Env) → Step c (decline_incoming_call env c c)
  end : (env : Env) (notify_peer : Bool) → Step c (end_call env notify_peer c c)
  event : (env : Env) (rate : Str) (s : Signal) → Step c (handle_call_event env rate s c c)
  fire : (env : Env) (t : Timer) → c.timer ≡ some t → Step c (timer_fired env t c c)
  second : (n : ℕ) → Step c (tick n c)

pub data Reach (c : Call) : Call → Type 0 where
  here : Reach c c
  next : {d e : Call} → Reach c d → Step d e → Reach c e

-- A client that has just been loaded.
abbrev pub fresh : Call
fresh = record {
  state = idle;
  incoming = none;
  peer_name = [];
  peer_id = [];
  status = no_status;
  error = no_error;
  diagnostics = [];
  started_at = [];
  duration = 0;
  active_call = [];
  active_peer = [];
  active_room = [];
  caller = [];
  timer = none;
  audio_connected = false;
  has_stream = false;
  has_context = false;
  has_processor = false;
  has_source = false;
  has_gain = false;
  out = [];
}
