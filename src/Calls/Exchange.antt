-- ===== src/Calls/Exchange.antt =====
-- The events of a call that is offered, answered and heard, one by one. (frontend/src/components/MessengerApp.tsx)
use quiteline.Base.{
  ◌≡◌, refl, ◌∙◌, str_eq_sym, subst, true, false, List, some, ℕ, Str, str_eq, str_eq_refl, truthy,
}
use quiteline.Wire.{Identity, Signal}
use quiteline.Calls.State.{Call, Env, connected, ringing, arm_call_timeout, add_diagnostic}
use quiteline.Calls.Media.{granted}
use quiteline.Calls.Handlers.{find_peer, offer_signal, answer_signal}
use quiteline.Calls.Events.{handle_call_event, on_offer}
use quiteline.Calls.Steps.{start_call, answer_call, fresh}
use quiteline.Calls.Keeps.{
  audio_signal, audio_connects, answer-Keeps, start_call_takes, answer_call_takes,
}

module _ (near far : Env) (caller callee : Identity) (peers : List Identity)
    (call_id rate chunk : Str) (seq : ℕ) where
  -- The caller when the offer is out.
  abbrev pub dialled : Call
  dialled = start_call near peers callee.user_id call_id (granted true) fresh

  abbrev pub the_offer : Signal
  the_offer = offer_signal near caller callee call_id

  abbrev pub rung : Call
  rung = handle_call_event far rate the_offer fresh fresh

  abbrev pub picked_up : Call
  picked_up = answer_call far rate (granted true) rung

  abbrev pub answered : Call
  answered = handle_call_event near rate (answer_signal callee the_offer) dialled dialled

  abbrev pub caller_hears : Call
  caller_hears =
      handle_call_event near rate
        (audio_signal call_id near.open_room callee.user_id caller.user_id chunk seq) answered
        answered

  abbrev pub callee_hears : Call
  callee_hears =
      handle_call_event far rate
        (audio_signal call_id near.open_room caller.user_id callee.user_id chunk seq) picked_up
        picked_up

  rung_rings :
      far.my_id ≡ callee.user_id
      → truthy callee.user_id ≡ true
      → str_eq caller.user_id callee.user_id ≡ false
      → (rung.incoming ≡ some the_offer) × (rung.audio_connected ≡ false) × (rung.state ≡ ringing)
  unfolding handle_call_event on_offer arm_call_timeout add_diagnostic
  rung_rings n b d = rw (n, b, d, str_eq_refl callee.user_id) (refl, refl, refl)

  -- If these events arrive, the callee rings and both get connected.
  pub exchange_connects :
      near.identity ≡ some caller
      → far.identity ≡ some callee
      → near.my_id ≡ caller.user_id
      → far.my_id ≡ callee.user_id
      → truthy near.open_room ≡ true
      → truthy caller.user_id ≡ true
      → truthy callee.user_id ≡ true
      → str_eq caller.user_id callee.user_id ≡ false
      → find_peer callee.user_id peers ≡ some callee
      → (rung.state ≡ ringing) × (caller_hears.state ≡ connected) × (callee_hears.state ≡ connected)
  unfolding add_diagnostic
  exchange_connects i j m n r a b d f =
      let (t, k) = start_call_takes near caller callee peers call_id fresh i r refl f in
      let (rings, quiet, state) = rung_rings n b d in
      let (u, l) = answer_call_takes far callee the_offer rate rung j rings in
      let back = str_eq_sym caller.user_id callee.user_id d in
      let (v, w) =
        answer-Keeps near rate (answer_signal callee the_offer) dialled dialled (rw (m, a))
          (rw (m, back)) (rw (m, str_eq_refl caller.user_id)) refl in
      (
        state,
        subst
            (λ (x : Str).
              (handle_call_event near rate
                (audio_signal call_id near.open_room callee.user_id x chunk seq) answered
                answered).state
              ≡ connected)
            m
            (audio_connects near rate call_id near.open_room callee.user_id chunk seq answered
              answered (rw (m, a)) (rw (m, back)) (v ∙ t) (w ∙ k)),
        subst
            (λ (x : Str).
              (handle_call_event far rate
                (audio_signal call_id near.open_room caller.user_id x chunk seq) picked_up
                picked_up).state
              ≡ connected)
            n
            (audio_connects far rate call_id near.open_room caller.user_id chunk seq picked_up
              picked_up (rw (n, b)) (rw (n, d)) u (l ∙ quiet)),
      )
