-- ===== src/Push/Enable.antt =====
-- Turning notifications on. (frontend/src/components/layout/Sidebar.tsx)
use quiteline.Api.Devices.{PushPreferences}
use quiteline.Base.{
  Bool, true, false, not, ◌&&◌, ◌||◌, List, [], ◌∷◌, ◌++◌, map, Option, none, some, ℕ, ◌+◌, Str,
  truthy, leb, ◌==◌, codes, length, if◌then◌else◌, String,
}
use quiteline.Api.Request.{starts_with}
use quiteline.Push.State.{
  PushSubscription, BrowserSubscription, Feedback, not_configured, unsupported,
  only_from_home_screen, enabled_now, failed, browser_cannot_register, push_service_rejects,
  PushFailure, denied, no_push_manager, invalid_key, browser_error, PushDeed, ask_permission,
  register_worker, unsubscribe, subscribe, wait_900, save, Push, Result, done, raised, World,
  url_base64_to_uint8_array, do_push,
}

-- What is done step by step: a result, or an error that ends it.
abbrev pub Act : Type 0 → Type 0
Act A = Push → Result A × Push

abbrev pub after : {A B : Type 0} → Result A → (A → Act B) → Act B
after (done a) f p = f a p
after (raised e) f p = (raised e, p)

abbrev pub ◌>>=◌ : {A B : Type 0} → Act A → (A → Act B) → Act B
◌>>=◌ m f p = let (r, q) = m p in after r f q

-- A call that is told, and one that is not.
abbrev pub perform : {A : Type 0} → PushDeed → Result A → Act A
perform d r p = (r, do_push d p)

abbrev pub look : {A : Type 0} → Result A → Act A
look r p = (r, p)

-- `if (…) throw …`.
abbrev pub ensure : Bool → PushFailure → Act Unit
ensure true e p = (done tt, p)
ensure false e p = (raised e, p)

abbrev pub unsubscribe_if : Bool → Result Unit → Act Unit
unsubscribe_if true r p = (r, do_push unsubscribe p)
unsubscribe_if false r p = (done tt, p)

abbrev pub decoded_key : Str → Option (List ℕ) → Act (List ℕ)
decoded_key message none p = (raised (browser_error (codes "InvalidCharacterError") message), p)
decoded_key message (some key) p = (done key, p)

-- The second attempt of `subscribeToPushWithRetry`.
unfoldable pub try_again : World → Act BrowserSubscription
try_again w = do
  had ← look w.existing_again
  gone ← unsubscribe_if had w.unsubscribed_again
  perform subscribe w.second_subscribe

-- An error is that of the first attempt.
abbrev pub first_error : {A : Type 0} → PushFailure → Result A × Push → Result A × Push
first_error e (done a, p) = (done a, p)
first_error e (raised f, p) = (raised e, p)

unfoldable pub after_first : World → Result BrowserSubscription → Act BrowserSubscription
unfolding try_again
after_first w (done b) p = (done b, p)
after_first w (raised e) p = first_error e (try_again w (do_push wait_900 p))

-- `subscribeToPushWithRetry`.
unfoldable pub subscribe_to_push_with_retry : World → Act BrowserSubscription
unfolding after_first
subscribe_to_push_with_retry w p = after_first w w.first_subscribe (do_push subscribe p)

-- What `enablePushNotifications` does in its `try`, given the server's key and the preferences.
unfoldable pub enable_steps : World → Str → PushPreferences → Act PushSubscription
unfolding url_base64_to_uint8_array subscribe_to_push_with_retry
enable_steps w public_key prefs = do
  granted ← perform ask_permission w.permission
  allowed ← ensure granted denied
  registered ← perform register_worker w.registered
  manager ← ensure w.has_push_manager no_push_manager
  key ← decoded_key w.atob_message (url_base64_to_uint8_array public_key)
  valid ← ensure (length key == 65) invalid_key
  had ← look w.existing
  gone ← unsubscribe_if had w.unsubscribed
  browser_sub ← subscribe_to_push_with_retry w
  perform (save browser_sub prefs) w.saved

-- The name and the message of an error, in English.
abbrev pub error_name : PushFailure → Str
error_name (browser_error name message) = name
error_name _ = codes "Error"

abbrev pub error_text : PushFailure → Str
error_text denied = codes "Notification permission was not granted."
error_text no_push_manager =
    codes "Push API is unavailable. On iPhone, open the app from Home Screen."
error_text invalid_key =
    codes
      "The server VAPID public key is invalid. Generate a new key pair and update the .env file."
error_text (browser_error name message) = message

-- `/…/i` for a text of letters.
abbrev pub lower : ℕ → ℕ
lower c = if leb b'A' c && leb c b'Z' then c + 32 else c

unfoldable pub contains : Str → Str → Bool
contains p [] = starts_with p []
contains p (c ∷ s) = let rest = contains p s in starts_with p (c ∷ s) || rest

unfoldable pub mentions : String → Str → Bool
unfolding contains
mentions p s = contains (map lower (codes p)) (map lower s)

-- `pushSubscribeErrorMessage`: that the browser cannot register, that the push service has rejected
-- the subscription, or the error's own message.
unfoldable pub push_subscribe_error_message : PushFailure → Feedback
unfolding mentions
push_subscribe_error_message e =
    let s = error_name e ++ (codes " " ++ error_text e) in
    if mentions "push service error" s
      || mentions "Registration failed" s
      || mentions "AbortError" s
    then browser_cannot_register
    else if mentions "VAPID" s
        || mentions "applicationServerKey" s
        || mentions "push service error" s
        || mentions "Registration failed" s
    then push_service_rejects
    else failed (error_text e)

-- What is shown at the end.
unfoldable pub enabled_with : Result PushSubscription × Push → Push
unfolding push_subscribe_error_message
enabled_with (done saved, p) = record p {
  subscriptions = saved ∷ [];
  prefs = saved.preferences;
  feedback = some enabled_now;
  loading = false;
}
enabled_with (raised e, p) = record p {
  feedback = some (push_subscribe_error_message e);
  loading = false;
}

-- `enablePushNotifications`, on the state that its closure has seen.
unfoldable pub enable_push_notifications : World → Push → Push
unfolding enable_steps enabled_with
enable_push_notifications w p = elim p.info [
  | none ↦ record p { feedback = some not_configured }
  | some info ↦
      if not info.enabled || not (truthy info.public_key)
      then record p { feedback = some not_configured }
      else if not w.has_service_worker || not w.has_notification
      then record p { feedback = some unsupported }
      else if w.looks_like_ios && not w.is_ios_standalone
      then record p { feedback = some only_from_home_screen }
      else enabled_with (enable_steps w info.public_key p.prefs (record p { loading = true }))
]
