-- ===== src/Calls/Invariant.antt =====
-- What holds of a call between two steps. (frontend/src/components/MessengerApp.tsx)
use quiteline.Base.{
  ◌≡◌, ◌≢◌, Bool, true, false, [], Option, none, some, Str, truthy, arith, if◌then◌else◌,
}
use quiteline.Wire.{Identity, Signal}
use quiteline.Calls.State.{
  Call, CallState, idle, calling, ringing, connected, failed, Env, answer_timer, emit, send_signal,
  add_diagnostic, Effect,
}
use quiteline.Calls.Cleanup.{cleanup_call, release, log_end, notify_hangup}
use quiteline.Calls.Media.{setup_audio_playback, start_audio_streaming}

-- No call is under way in these states.
abbrev pub is_resting : CallState → Bool
is_resting idle = true
is_resting failed = true
is_resting ringing = true
is_resting _ = false

-- No offer is waiting in these states.
abbrev pub has_no_offer : CallState → Bool
has_no_offer idle = true
has_no_offer failed = true
has_no_offer calling = true
has_no_offer _ = false

pub record Inv (c : Call) : Type 0 where
  pub resting :
      is_resting c.state ≡ true
      → (c.active_call ≡ [])
        × (c.active_peer ≡ [])
        × (c.active_room ≡ [])
        × (c.caller ≡ [])
        × (c.has_stream ≡ false)
        × (c.audio_connected ≡ false)
  pub rings : c.state ≡ ringing → c.incoming ≢ none
  pub calm : has_no_offer c.state ≡ true → c.incoming ≡ none
  pub busy : truthy c.active_call ≡ true → c.incoming ≡ none
  pub connected_by_audio : c.state ≡ connected → (c.audio_connected ≡ true) × (c.timer ≡ none)
  pub waits :
      c.state ≡ calling
      → (i : Option Identity) × (c.timer
          ≡ some (answer_timer c.active_call c.active_peer c.active_room i))

pub release-Inv : (k : Bool) (c : Call) → Inv (release k c)
unfolding release
release-Inv true c = ground arith
release-Inv false c = ground arith

pub cleanup_call-Inv : (env : Env) (n k : Bool) (seen c : Call) → Inv (cleanup_call env n k seen c)
unfolding cleanup_call
cleanup_call-Inv env n k seen c =
    release-Inv k (if n then log_end env seen (notify_hangup env c) else c)

-- What only tells others, or notes what happened, keeps the invariant.
pub emit-Inv : (e : Effect) (c : Call) → Inv c → Inv (emit e c)
emit-Inv e c h = ground arith

pub send_signal-Inv : (env : Env) (s : Signal) (c : Call) → Inv c → Inv (send_signal env s c)
unfolding send_signal
send_signal-Inv env s c h = ground arith

pub add_diagnostic-Inv : (env : Env) (t : Str) (c : Call) → Inv c → Inv (add_diagnostic env t c)
unfolding add_diagnostic
add_diagnostic-Inv env t c h = ground arith

pub setup_audio_playback-Inv :
    (env : Env) (rate : Str) (c : Call) → Inv c → Inv (setup_audio_playback env rate c)
unfolding setup_audio_playback add_diagnostic
setup_audio_playback-Inv env rate c h = ground arith

pub start_audio_streaming-Inv : (env : Env) (c : Call) → Inv c → Inv (start_audio_streaming env c)
unfolding start_audio_streaming add_diagnostic
start_audio_streaming-Inv env c h = ground arith
