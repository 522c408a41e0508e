-- ===== src/Session/Login.antt =====
-- How a session comes and is refreshed. (frontend/src/components/MessengerApp.tsx)
use quiteline.Base.{
  Bool, true, false, not, ◌||◌, [], ℕ, ◌-◌, ◌*◌, Str, truthy, ltb, length, if◌then◌else◌, or_else,
}
use quiteline.Wire.{AuthSession, Reply, ok, auth_error, error}
use quiteline.Session.State.{App, AppView, chat, rooms, notice_two_factor, notice_ready}
use quiteline.Session.Account.{do_app, save_session, handle_auth_expired}

-- What the URL says that the client is loaded with: an invite, or a room and a message, and a view.
pub record Location : Type 0 where
  pub invite : Str
  pub chat_id : Str
  pub message_id : Str
  pub view : AppView

abbrev pub is_chat : AppView → Bool
is_chat chat = true
is_chat _ = false

-- What the first effect does at once.
unfoldable pub apply_location : Location → App → App
apply_location l a =
    let b =
      if truthy l.invite
      then record a { invite_text = l.invite; mobile_view = rooms; sidebar_view = rooms }
      else if truthy l.chat_id
      then record a {
        active_room = l.chat_id;
        mobile_view = l.view;
        sidebar_view = if is_chat l.view then rooms else l.view;
      }
      else record a { mobile_view = l.view; sidebar_view = l.view } in
    if truthy l.message_id then record b { highlighted = l.message_id } else b

-- And what it does when `refreshSession` has answered.
unfoldable pub session_restored : Bool → Reply AuthSession → App → App
unfolding save_session
session_restored is_mobile (ok restored) a = record (save_session is_mobile true restored a) {
  color_scheme = restored.principal.theme;
  display_name = or_else restored.principal.display_name restored.principal.username;
  bootstrapped = true;
}
session_restored is_mobile auth_error a = record a { bootstrapped = true }
session_restored is_mobile (error e) a = record a { bootstrapped = true }

-- `refreshInMs`. (A session that is past its end is refreshed like one that ends soon.)
unfoldable pub refresh_in_ms : ℕ → ℕ → ℕ
refresh_in_ms expires_at now =
    let left = expires_at * 1000 - now - 60000 in if ltb left 30000 then 30000 else left

-- What the timer's `refreshSession` does.
unfoldable pub session_refreshed : Bool → Reply AuthSession → App → App
unfolding save_session handle_auth_expired
session_refreshed is_mobile (ok next) a = save_session is_mobile false next a
session_refreshed is_mobile auth_error a = handle_auth_expired a
session_refreshed is_mobile (error e) a = handle_auth_expired a

-- What a login or a registration ends in.
pub data Login : Type 0 where
  logged_in : AuthSession → Login
  two_factor : Login

-- `onSuccess` and `onError` of the login; `name` is the user name that was typed, and `invalid`
-- the text of an invalid second factor.
unfoldable pub login_answered : Bool → Str → Str → Reply Login → App → App
unfolding save_session handle_auth_expired
login_answered is_mobile name invalid (ok two_factor) a =
    do_app notice_two_factor (record a { totp_required = true; auth_error = [] })
login_answered is_mobile name invalid (ok (logged_in s)) a =
    do_app notice_ready (record (save_session is_mobile true s a) {
      color_scheme = s.principal.theme;
      display_name = or_else s.principal.username name;
      totp_required = false;
      totp_code = [];
      auth_error = [];
    })
login_answered is_mobile name invalid auth_error a = handle_auth_expired a
login_answered is_mobile name invalid (error e) a = record a {
  auth_error = if a.totp_required then invalid else e;
}

-- The guard of `submitAuth`; `trim` is `String.prototype.trim`.
unfoldable pub may_submit : (Str → Str) → Bool → Str → Str → Bool
may_submit trim is_pending username password =
    not (not (truthy (trim username)) || ltb (length password) 8 || is_pending)
