-- ===== src/Calls/Endings.antt =====
-- How calls end. (frontend/src/components/MessengerApp.tsx)
use quiteline.Base.{
  ◌≡◌, refl, ◌∙◌, ap, Bool, true, false, [], ◌∷◌, ◌++◌, Option, some, Str, str_eq, truthy, arith,
  codes, ◌⊎◌, str_eq_sym,
}
use quiteline.Wire.{Identity, Signal, signal, hangup, decline, busy}
use quiteline.Calls.State.{
  Call, ringing, Env, answer_timer, publish, send_signal, signal_topic, emit, arm_call_timeout,
  add_diagnostic,
}
use quiteline.Calls.Cleanup.{cleanup_call, notify_hangup, log_end, release, timer_fired}
use quiteline.Calls.Handlers.{is_idle}
use quiteline.Calls.Events.{handle_call_event, is_offer, on_offer}
use quiteline.Calls.Invariant.{Inv}

out-notify_hangup_quiet : (env : Env) (c : Call) → c.active_room ≡ [] → notify_hangup env c ≡ c
unfolding notify_hangup
out-notify_hangup_quiet env c e = ground arith

log_end_quiet : (env : Env) (seen c : Call) → c.active_room ≡ [] → log_end env seen c ≡ c
unfolding log_end
log_end_quiet env seen c e = ground arith

pub out-release : (k : Bool) (c : Call) → (release k c).out ≡ c.out
unfolding release
out-release k c = refl

active_room-cleanup_call :
    (env : Env) (n k : Bool) (seen c : Call) → (cleanup_call env n k seen c).active_room ≡ []
unfolding cleanup_call release
active_room-cleanup_call env n k seen c = refl

-- A call that is cleaned up a second time, whoever does it, tells nobody and logs nothing.
pub cleanup_call_once :
    (env env' : Env) (n n' k k' : Bool) (seen seen' c : Call)
    → (cleanup_call env n k seen (cleanup_call env' n' k' seen' c)).out
      ≡ (cleanup_call env' n' k' seen' c).out
cleanup_call_once env env' n n' k k' seen seen' c =
    go n (cleanup_call env' n' k' seen' c) (active_room-cleanup_call env' n' k' seen' c)
  where
    go : (n : Bool) (d : Call) → d.active_room ≡ [] → (cleanup_call env n k seen d).out ≡ d.out
    go false d e = unfold cleanup_call in out-release k d
    go true d e =
        unfold cleanup_call in
        out-release k (log_end env seen (notify_hangup env d))
        ∙ ap (λ (x : Call). x.out)
            (ap (log_end env seen) (out-notify_hangup_quiet env d e) ∙ log_end_quiet env seen d e)

abbrev pub hangup_signal : Identity → Call → Signal
hangup_signal me c = record {
  kind = hangup;
  call_id = c.active_call;
  room_id = c.active_room;
  from_user_id = me.user_id;
  to_user_id = c.active_peer;
}

pub notify_hangup_sends :
    (env : Env) (me : Identity) (c : Call)
    → env.identity ≡ some me
    → env.socket_open ≡ true
    → truthy c.active_call ≡ true
    → truthy c.active_peer ≡ true
    → truthy c.active_room ≡ true
    → notify_hangup env c
      ≡ emit (publish (codes "user:" ++ c.active_peer) (signal (hangup_signal me c))) c
unfolding notify_hangup send_signal signal_topic
notify_hangup_sends env me c i o a p r = rw (i, notify_hangup) (rw (a, p, r) (rw o))

ne_nil : (s : Str) → truthy s ≡ true → str_eq s [] ≡ false
unfolding str_eq
ne_nil [] t = cc
ne_nil (c ∷ s) t = refl

-- While a client rings, no event of the ringing call but an offer changes anything, and nor does the
-- timer of that call when it goes off: a caller who hangs up or is not answered leaves it ringing.
pub ringing_is_deaf :
    (env : Env) (rate peer room : Str) (me : Option Identity) (e : Signal) (seen c : Call)
    → Inv c
    → c.state ≡ ringing
    → truthy e.call_id ≡ true
    → is_offer e.kind ≡ false
    → (handle_call_event env rate e seen c ≡ c)
      × (timer_fired env (answer_timer e.call_id peer room me) seen c ≡ c)
unfolding handle_call_event timer_fired
ringing_is_deaf env rate peer room me e seen c h r t o =
    let quiet : c.active_call ≡ [] = (h.resting (rw r)).0 in
    let other : str_eq e.call_id c.active_call ≡ false = rw quiet (ne_nil e.call_id t) in
    (ground arith, rw (str_eq_sym e.call_id c.active_call other))

abbrev pub busy_signal : Env → Signal → Signal
busy_signal env e = record {
  kind = decline (some busy);
  call_id = e.call_id;
  room_id = e.room_id;
  from_user_id = env.my_id;
  to_user_id = e.from_user_id;
}

-- An offer from another user, to this one, is declined as busy, and changes nothing else, if the
-- state that its handler saw is not idle; if it is, the client rings whatever the present state of
-- the call is, and the call that is under way keeps its id, its microphone and its sound.
pub offer_by_seen :
    (env : Env) (rate : Str) (e : Signal) (seen c : Call)
    → truthy env.my_id ≡ true
    → str_eq e.from_user_id env.my_id ≡ false
    → str_eq e.to_user_id env.my_id ≡ true
    → is_offer e.kind ≡ true
    → (is_idle seen.state ≡ false)
        × (handle_call_event env rate e seen c ≡ send_signal env (busy_signal env e) c)
      ⊎ (is_idle seen.state ≡ true)
        × ((handle_call_event env rate e seen c).state ≡ ringing)
        × ((handle_call_event env rate e seen c).active_call ≡ c.active_call)
        × ((handle_call_event env rate e seen c).has_stream ≡ c.has_stream)
        × ((handle_call_event env rate e seen c).audio_connected ≡ c.audio_connected)
unfolding handle_call_event on_offer arm_call_timeout add_diagnostic
offer_by_seen env rate e seen c m f t o = ground arith
