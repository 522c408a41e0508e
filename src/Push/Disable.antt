-- ===== src/Push/Disable.antt =====
-- Turning notifications off, and what they are sent for.
-- (frontend/src/components/layout/Sidebar.tsx)
use quiteline.Base.{Bool, true, false, List, [], ◌∷◌, Option, none, some, if◌then◌else◌}
use quiteline.Api.Devices.{PushPreferences}
use quiteline.Push.State.{
  PushInfo, PushSubscription, failed, disabled_now, delete, update, Push, Result, done, raised,
  do_push,
}
use quiteline.Push.Enable.{Act, ◌>>=◌, perform, look, unsubscribe_if, error_text}

-- `currentPushSubscription`.
abbrev pub current : List PushSubscription → Option PushSubscription
current [] = none
current (s ∷ ss) = some s

-- What is answered when notifications are turned off: whether there is a subscription of the
-- browser, what removing it ends in, and what the server answers.
pub record Leaving : Type 0 where
  pub has_service_worker : Bool
  pub existing : Result Bool
  pub unsubscribed : Result Unit
  pub deleted : Result Unit

abbrev pub leave_browser : Leaving → Act Unit
leave_browser w = do
  had ← look (if w.has_service_worker then w.existing else done false)
  unsubscribe_if had w.unsubscribed

abbrev pub disable_steps : Leaving → PushSubscription → Act Unit
disable_steps w s = do left ← leave_browser w; perform (delete s.id) w.deleted

abbrev pub disabled_with : Result Unit × Push → Push
disabled_with (done u, p) = record p {
  subscriptions = [];
  feedback = some disabled_now;
  loading = false;
}
disabled_with (raised e, p) = record p { feedback = some (failed (error_text e)); loading = false }

-- `disablePushNotifications`.
unfoldable pub disable_push_notifications : Leaving → Push → Push
disable_push_notifications w p = elim (current p.subscriptions) [
  | none ↦ p
  | some s ↦ disabled_with (disable_steps w s (record p { loading = true }))
]

abbrev pub prefs_saved : Result PushSubscription → Push → Push
prefs_saved (done s) p = record p { subscriptions = s ∷ [] }
prefs_saved (raised e) p = record p { feedback = some (failed (error_text e)) }

-- `updatePushPrefs`.
unfoldable pub update_push_prefs : PushPreferences → Result PushSubscription → Push → Push
update_push_prefs next answer p =
    let q = record p { prefs = next } in
    elim (current p.subscriptions) [
      | none ↦ q
      | some s ↦ prefs_saved answer (do_push (update s.id) q)
    ]

abbrev pub first_prefs : List PushSubscription → PushPreferences → PushPreferences
first_prefs [] prefs = prefs
first_prefs (s ∷ ss) prefs = s.preferences

-- What the settings for notifications show once the server has answered both requests, or one with
-- an error; the effect is cancelled when they are left.
unfoldable pub push_loaded : Bool → Result (PushInfo × List PushSubscription) → Push → Push
push_loaded true (done (info, subs)) p = p
push_loaded false (done (info, subs)) p = record p {
  info = some info;
  subscriptions = subs;
  prefs = first_prefs subs p.prefs;
  loading = false;
}
push_loaded cancelled (raised e) p = record p {
  feedback = some (failed (error_text e));
  loading = if cancelled then p.loading else false;
}
