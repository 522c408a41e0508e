-- ===== src/Calls/Media.antt =====
-- The sound of a call, as far as its handlers keep track of it.
-- (frontend/src/components/MessengerApp.tsx)
use quiteline.Base.{Bool, true, not, ◌++◌, ◌||◌, none, some, Str, truthy, if◌then◌else◌, codes}
use quiteline.Calls.State.{Call, Env, add_diagnostic}

-- `setupAudioPlayback`; `rate` is the context's sample rate, as text.
unfoldable pub setup_audio_playback : Env → Str → Call → Call
unfolding add_diagnostic
setup_audio_playback env rate c =
    if c.has_context
    then elim env.playback_error [
      | none ↦
          add_diagnostic env (codes "Audio playback setup (" ++ (rate ++ codes "Hz)"))
            (record c { has_gain = true })
      | some e ↦ add_diagnostic env (codes "Audio playback error: " ++ e) c
    ]
    else add_diagnostic env (codes "Audio playback: no AudioContext") c

-- `startAudioStreaming`.
unfoldable pub start_audio_streaming : Env → Call → Call
unfolding add_diagnostic
start_audio_streaming env c =
    if not c.has_stream
    then add_diagnostic env (codes "Audio streaming: no mic stream") c
    else if not (truthy env.my_id) || not (truthy c.active_peer)
    then add_diagnostic env (codes "Audio streaming: missing ids") c
    else if not c.has_context
    then add_diagnostic env (codes "Audio streaming: no AudioContext") c
    else elim env.streaming_error [
      | none ↦
          add_diagnostic env (codes "Audio streaming started (PCM)")
            (record c { has_source = true; has_processor = true })
      | some e ↦ add_diagnostic env (codes "Audio streaming error: " ++ e) c
    ]

-- What `navigator.mediaDevices.getUserMedia` ends in, and whether the browser has an audio context.
pub data Media : Type 0 where
  granted : Bool → Media
  denied : Str → Media
