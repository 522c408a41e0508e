-- ===== src/Calls/Keeps.antt =====
-- What the handlers leave of the call that is under way. (frontend/src/components/MessengerApp.tsx)
use quiteline.Base.{
  ◌≡◌, refl, ap, subst, sym, ◌∙◌, Bool-cases, inl, inr, true, false, List, [], Option, none, some,
  ℕ, Str, str_eq, str_eq_refl, truthy, arith, codes,
}
use quiteline.Wire.{Identity, Signal, answer, audio}
use quiteline.Calls.State.{
  Call, Env, connected, connecting, connecting_text, send_signal, arm_call_timeout,
  arm_connection_timeout, add_diagnostic, clear_timeout,
}
use quiteline.Calls.Media.{Media, granted, setup_audio_playback, start_audio_streaming}
use quiteline.Calls.Handlers.{
  find_peer, begin_call, resume_call, placed, offer_signal, begin_answer, resume_answer, taken,
  answer_signal, is_idle,
}
use quiteline.Calls.Events.{handle_call_event, on_active, on_answer, on_audio}
use quiteline.Calls.Steps.{start_call, answer_call}

-- A chunk of sound from one user to another.
abbrev pub audio_signal : Str → Str → Str → Str → Str → ℕ → Signal
audio_signal call_id room from to chunk seq = record {
  kind = audio chunk seq;
  call_id = call_id;
  room_id = room;
  from_user_id = from;
  to_user_id = to;
}

-- A chunk of the call's sound connects it, if none has before.
pub audio_connects :
    (env : Env) (rate call_id room from chunk : Str) (seq : ℕ) (seen c : Call)
    → truthy env.my_id ≡ true
    → str_eq from env.my_id ≡ false
    → c.active_call ≡ call_id
    → c.audio_connected ≡ false
    → (handle_call_event env rate (audio_signal call_id room from env.my_id chunk seq) seen c).state
      ≡ connected
unfolding handle_call_event on_active on_audio add_diagnostic clear_timeout
audio_connects env rate call_id room from chunk seq seen c a d e n =
    rw (a, d, str_eq_refl env.my_id) (rw (e, str_eq_refl call_id) (rw n refl))

-- The call is the same, and as far as it is connected by sound.
abbrev pub Keeps : Call → Call → Type 0
Keeps c d = (d.active_call ≡ c.active_call) × (d.audio_connected ≡ c.audio_connected)

pub Keeps-then : (c d e : Call) → Keeps c d → Keeps d e → Keeps c e
Keeps-then c d e p q = (q.0 ∙ p.0, q.1 ∙ p.1)

send_signal-Keeps : (env : Env) (s : Signal) (c : Call) → Keeps c (send_signal env s c)
unfolding send_signal
send_signal-Keeps env s c = ground arith

start_audio_streaming-Keeps : (env : Env) (c : Call) → Keeps c (start_audio_streaming env c)
unfolding start_audio_streaming add_diagnostic
start_audio_streaming-Keeps env c = ground arith

setup_audio_playback-Keeps :
    (env : Env) (rate : Str) (c : Call) → Keeps c (setup_audio_playback env rate c)
unfolding setup_audio_playback add_diagnostic
setup_audio_playback-Keeps env rate c = ground arith

sound-Keeps :
    (env : Env) (rate : Str) (c : Call)
    → Keeps c (start_audio_streaming env (setup_audio_playback env rate c))
sound-Keeps env rate c =
    Keeps-then c (setup_audio_playback env rate c)
      (start_audio_streaming env (setup_audio_playback env rate c))
      (setup_audio_playback-Keeps env rate c)
      (start_audio_streaming-Keeps env (setup_audio_playback env rate c))

on_answer-Keeps :
    (env : Env) (rate : Str) (e : Signal) (seen c : Call) → Keeps c (on_answer env rate e seen c)
unfolding on_answer add_diagnostic clear_timeout arm_connection_timeout
on_answer-Keeps env rate e seen c = sound-Keeps env rate (
    add_diagnostic env (codes "Answer received, starting audio")
      (record (arm_connection_timeout seen e.call_id
        (record (clear_timeout c) { state = connecting })) { status = connecting_text }))

-- The answer to a call that waits for one leaves it the same call.
pub answer-Keeps :
    (env : Env) (rate : Str) (e : Signal) (seen c : Call)
    → truthy env.my_id ≡ true
    → str_eq e.from_user_id env.my_id ≡ false
    → str_eq e.to_user_id env.my_id ≡ true
    → e.kind ≡ answer
    → Keeps c (handle_call_event env rate e seen c)
unfolding handle_call_event on_active
answer-Keeps env rate e seen c a d t k =
    rw (a, d, t, k)
      (elim (Bool-cases (str_eq e.call_id c.active_call)) [
        | inl same ↦ rw same (on_answer-Keeps env rate e seen c)
        | inr other ↦ rw other (refl, refl)
      ])

-- Answering makes the offered call the client's.
resume_answer_takes :
    (env : Env) (me : Identity) (call : Signal) (rate : Str) (seen c : Call)
    → ((resume_answer env me call rate (granted true) seen c).active_call ≡ call.call_id)
      × ((resume_answer env me call rate (granted true) seen c).audio_connected ≡ c.audio_connected)
unfolding resume_answer add_diagnostic arm_connection_timeout taken
resume_answer_takes env me call rate seen c =
    let taken_up = arm_connection_timeout seen call.call_id (taken call true c) in
    let heard = start_audio_streaming env (setup_audio_playback env rate taken_up) in
    Keeps-then taken_up heard (send_signal env (answer_signal me call) heard)
      (sound-Keeps env rate taken_up) (send_signal-Keeps env (answer_signal me call) heard)

resume_call_takes :
    (env : Env) (me peer : Identity) (call_id : Str) (seen c : Call)
    → ((resume_call env me peer call_id (granted true) seen c).active_call ≡ call_id)
      × ((resume_call env me peer call_id (granted true) seen c).audio_connected
          ≡ c.audio_connected)
unfolding resume_call add_diagnostic arm_call_timeout placed
resume_call_takes env me peer call_id seen c =
    send_signal-Keeps env (offer_signal env me peer call_id)
      (arm_call_timeout env call_id peer.user_id env.open_room (placed env me peer call_id true c))

elim-some :
    {A B : Type 0} {o : Option A} {a : A} {b : B} (f : Option A → B)
    → o ≡ some a
    → f (some a) ≡ b
    → f o ≡ b
elim-some f e g = ap f e ∙ g

abbrev pub starts_call : Env → Call → Call
starts_call env c = add_diagnostic env (codes "Starting call") (record c { diagnostics = [] })

begin_call_takes :
    (env : Env) (me peer : Identity) (peers : List Identity) (c : Call)
    → env.identity ≡ some me
    → truthy env.open_room ≡ true
    → is_idle c.state ≡ true
    → find_peer peer.user_id peers ≡ some peer
    → begin_call env peers peer.user_id c c ≡ (starts_call env c, some peer)
unfolding begin_call
begin_call_takes env me peer peers c i r s f =
    rw (i, begin_call) (rw (r, s) (rw (f, begin_call) refl))

-- What `startCall` does when it has been begun.
abbrev after_start : Env → Str → Media → Call → Call × Option Identity → Option Identity → Call
after_start env call_id media c begun me = elim begun.1 [
  | none ↦ begun.0
  | some peer ↦ elim me [ none ↦ begun.0 | some i ↦ resume_call env i peer call_id media c begun.0 ]
]

pub start_call_resumes :
    (env : Env) (me peer : Identity) (peers : List Identity) (call_id : Str) (media : Media)
    → (c : Call) → env.identity ≡ some me
    → truthy env.open_room ≡ true
    → is_idle c.state ≡ true
    → find_peer peer.user_id peers ≡ some peer
    → start_call env peers peer.user_id call_id media c
      ≡ resume_call env me peer call_id media c (starts_call env c)
unfolding start_call
start_call_resumes env me peer peers call_id media c i r s f =
    ap (λ (b : Call × Option Identity). after_start env call_id media c b env.identity)
      (begin_call_takes env me peer peers c i r s f)
    ∙ ap (after_start env call_id media c (starts_call env c, some peer)) i

pub start_call_takes :
    (env : Env) (me peer : Identity) (peers : List Identity) (call_id : Str) (c : Call)
    → env.identity ≡ some me
    → truthy env.open_room ≡ true
    → is_idle c.state ≡ true
    → find_peer peer.user_id peers ≡ some peer
    → ((start_call env peers peer.user_id call_id (granted true) c).active_call ≡ call_id)
      × ((start_call env peers peer.user_id call_id (granted true) c).audio_connected
          ≡ (starts_call env c).audio_connected)
start_call_takes env me peer peers call_id c i r s f =
    subst
      (λ (d : Call).
        (d.active_call ≡ call_id) × (d.audio_connected ≡ (starts_call env c).audio_connected))
      (sym (start_call_resumes env me peer peers call_id (granted true) c i r s f))
      (resume_call_takes env me peer call_id c (starts_call env c))

abbrev pub answers_call : Env → Call → Call
answers_call env c = add_diagnostic env (codes "Answering call") (record c { state = connecting })

begin_answer_takes :
    (env : Env) (me : Identity) (call : Signal) (c : Call)
    → env.identity ≡ some me
    → c.incoming ≡ some call
    → begin_answer env c c ≡ (answers_call env c, some call)
unfolding begin_answer
begin_answer_takes env me call c i r =
    elim-some
      (λ (o : Option Signal). elim o [
        | none ↦ (c, none)
        | some call ↦ elim env.identity [
          | none ↦ (c, none)
          | some me ↦ (answers_call env c, some call)
        ]
      ])
      r
      (elim-some
        (λ (o : Option Identity). elim o [
          | none ↦ (c, none)
          | some me ↦ (answers_call env c, some call)
        ])
        i refl)

-- What `answerCall` does when it has been begun.
abbrev after_begin : Env → Str → Media → Call → Call × Option Signal → Option Identity → Call
after_begin env rate media c begun me = elim begun.1 [
  | none ↦ begun.0
  | some call ↦ elim me [ none ↦ begun.0 | some i ↦ resume_answer env i call rate media c begun.0 ]
]

pub answer_call_resumes :
    (env : Env) (me : Identity) (call : Signal) (rate : Str) (media : Media) (c : Call)
    → env.identity ≡ some me
    → c.incoming ≡ some call
    → answer_call env rate media c ≡ resume_answer env me call rate media c (answers_call env c)
unfolding answer_call
answer_call_resumes env me call rate media c i r =
    ap (λ (b : Call × Option Signal). after_begin env rate media c b env.identity)
      (begin_answer_takes env me call c i r)
    ∙ ap (after_begin env rate media c (answers_call env c, some call)) i

pub answer_call_takes :
    (env : Env) (me : Identity) (call : Signal) (rate : Str) (c : Call)
    → env.identity ≡ some me
    → c.incoming ≡ some call
    → ((answer_call env rate (granted true) c).active_call ≡ call.call_id)
      × ((answer_call env rate (granted true) c).audio_connected
          ≡ (answers_call env c).audio_connected)
answer_call_takes env me call rate c i r =
    subst
      (λ (d : Call).
        (d.active_call ≡ call.call_id) × (d.audio_connected ≡ (answers_call env c).audio_connected))
      (sym (answer_call_resumes env me call rate (granted true) c i r))
      (resume_answer_takes env me call rate c (answers_call env c))
