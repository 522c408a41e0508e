-- ===== src/Calls/Connects.antt =====
-- A call from its start until both hear each other. (frontend/src/components/MessengerApp.tsx)
use quiteline.Base.{true, List, [], ◌∷◌, ℕ, Str}
use quiteline.Wire.{Identity, Signal}
use quiteline.Calls.State.{Call, Env}
use quiteline.Calls.Media.{granted}
use quiteline.Calls.Handlers.{offer_signal}
use quiteline.Calls.Events.{handle_call_event}
use quiteline.Calls.Steps.{start_call, answer_call, fresh}
use quiteline.Calls.Keeps.{audio_signal}
use quiteline.Calls.Heard.{heard, hear_all}

module _ (near far : Env) (caller callee : Identity) (peers : List Identity)
    (call_id rate chunk : Str) (seq : ℕ) where
  -- The caller when it has called the callee.
  abbrev pub dialled : Call
  dialled = start_call near peers callee.user_id call_id (granted true) fresh

  -- The callee when it has handled what the caller has published to it.
  abbrev pub rung : Call
  rung = hear_all far rate (heard callee.user_id dialled.out) fresh

  abbrev pub picked_up : Call
  picked_up = answer_call far rate (granted true) rung

  -- The caller when it has handled what the callee has published to it.
  abbrev pub answered : Call
  answered = hear_all near rate (heard caller.user_id picked_up.out) dialled

  -- Each of the two when it has got a chunk of the other's sound.
  abbrev pub caller_hears : Call
  caller_hears =
      hear_all near rate
        (audio_signal call_id near.open_room callee.user_id caller.user_id chunk seq ∷ []) answered

  abbrev pub callee_hears : Call
  callee_hears =
      hear_all far rate
        (audio_signal call_id near.open_room caller.user_id callee.user_id chunk seq ∷ []) picked_up

  abbrev offer_sent : Signal
  offer_sent = offer_signal near caller callee call_id

  abbrev offered_to : Call
  offered_to = handle_call_event far rate offer_sent fresh fresh
