-- ===== src/Session/Security.antt =====
-- What a user changes of the own account: the theme, the avatar, the second factor, and the sessions
-- on other devices. (frontend/src/components/MessengerApp.tsx)
use quiteline.Base.{
  Bool, true, false, List, [], ◌∷◌, ◌++◌, Option, none, some, ℕ, ◌*◌, Str, ltb, length, codes,
  if◌then◌else◌,
}
use quiteline.Js.Split.{trim}
use quiteline.Wire.{AuthSession, Principal, Theme, light, dark, Reply, ok, auth_error, error}
use quiteline.Api.Request.{Request}
use quiteline.Api.Mutate.{Mutation, ask, throw}
use quiteline.Api.Account.{
  update_theme, upload_avatar, begin_totp_setup, confirm_totp, disable_totp,
}
use quiteline.Api.Devices.{revoke_account_session, revoke_other_account_sessions}
use quiteline.Session.State.{App}
use quiteline.Session.Account.{handle_request_error, logout_local}

pub record AccountSession : Type 0 where
  pub session_id : Str
  pub user_id : Str
  pub username : Str
  pub device_name : Option Str
  pub user_agent : Option Str
  pub ip_address : Option Str
  pub location : Option Str
  pub created_at : Str
  pub expires_at : Str
  pub revoked_at : Option Str
  pub current : Option Bool

pub data SecurityDeed : Type 0 where
  refetch_sessions notice_avatar notice_totp_on notice_totp_off : SecurityDeed
  -- The message of the error.
  notice_theme : Str → SecurityDeed

pub record TotpSetup : Type 0 where
  pub secret : Str
  pub otpauth_url : Str

pub record Security : Type 0 where
  pub app : App
  pub totp_setup : Option TotpSetup
  pub totp_confirm_code : Str
  pub totp_disable_password : Str
  pub totp_disable_code : Str
  pub avatar_version : ℕ
  pub deeds : List SecurityDeed

abbrev pub do_security : SecurityDeed → Security → Security
do_security d s = record s { deeds = s.deeds ++ d ∷ [] }

abbrev pub on_app : (App → App) → Security → Security
on_app f s = record s { app = f s.app }

-- `updateSessionPrincipal`, in a closure that has seen a session.
unfoldable pub update_session_principal : Option AuthSession → Principal → App → App
update_session_principal none p a = a
update_session_principal (some seen) p a = record a {
  session = some (record seen { principal = p });
}

-- The other theme.
abbrev pub other_theme : Theme → Theme
other_theme dark = light
other_theme light = dark

-- `toggleTheme` until its request, on the state that its closure has seen.
unfoldable pub toggle_theme : App → App → App × Option Request
toggle_theme seen a =
    let theme = other_theme seen.color_scheme in
    (
      record a { color_scheme = theme },
      elim seen.session [ none ↦ none | some s ↦ some (update_theme s.access_token theme) ],
    )

-- And what its answer does. An error of the session is shown like any other; its text is `unauthorized`.
unfoldable pub theme_saved : App → Str → Reply Principal → Security → Security
unfolding update_session_principal
theme_saved seen unauthorized (ok p) s = on_app (update_session_principal seen.session p) s
theme_saved seen unauthorized auth_error s = do_security (notice_theme unauthorized) s
theme_saved seen unauthorized (error e) s = do_security (notice_theme e) s

-- The functions of the mutations, for a session that their closures have seen.
abbrev pub login_required : Str
login_required = codes "login_required"

unfoldable pub revoke_session_fn : Option AuthSession → AccountSession → Mutation
revoke_session_fn none target = throw login_required
revoke_session_fn (some s) target = ask (revoke_account_session s.access_token target.session_id)

unfoldable pub revoke_other_sessions_fn : Option AuthSession → Mutation
revoke_other_sessions_fn none = throw login_required
revoke_other_sessions_fn (some s) = ask (revoke_other_account_sessions s.access_token)

-- `avatar` are the bytes that `compressAvatar` has made of the file.
unfoldable pub avatar_fn : Option AuthSession → List ℕ → Mutation
avatar_fn none avatar = throw login_required
avatar_fn (some s) avatar =
    if ltb (1024 * 1024) (length avatar)
    then throw (codes "avatar_too_large_after_compression")
    else ask (upload_avatar s.access_token avatar)

unfoldable pub begin_totp_fn : Option AuthSession → Mutation
begin_totp_fn none = throw login_required
begin_totp_fn (some s) = ask (begin_totp_setup s.access_token)

unfoldable pub confirm_totp_fn : Option AuthSession → Security → Mutation
unfolding trim
confirm_totp_fn none seen = throw login_required
confirm_totp_fn (some s) seen = ask (confirm_totp s.access_token (trim seen.totp_confirm_code))

unfoldable pub disable_totp_fn : Option AuthSession → Security → Mutation
unfolding trim
disable_totp_fn none seen = throw login_required
disable_totp_fn (some s) seen =
    ask (disable_totp s.access_token seen.totp_disable_password (trim seen.totp_disable_code))

abbrev pub is_current : AccountSession → Bool
is_current t = elim t.current [ none ↦ false | some b ↦ b ]

-- What the answers do.
unfoldable pub session_revoked_here : AccountSession → Reply {0} Unit → Security → Security
unfolding logout_local handle_request_error
session_revoked_here target (ok u) s =
    if is_current target then on_app (logout_local true) s else do_security refetch_sessions s
session_revoked_here target auth_error s = on_app (handle_request_error {A = Unit {0}} auth_error) s
session_revoked_here target (error e) s = on_app (handle_request_error {A = Unit {0}} (error e)) s

unfoldable pub others_revoked : Reply {0} Unit → Security → Security
unfolding handle_request_error
others_revoked (ok u) s = do_security refetch_sessions s
others_revoked auth_error s = on_app (handle_request_error {A = Unit {0}} auth_error) s
others_revoked (error e) s = on_app (handle_request_error {A = Unit {0}} (error e)) s

-- `seen` is the session that the closure has seen.
unfoldable pub avatar_uploaded : Option AuthSession → ℕ → Reply Principal → Security → Security
unfolding update_session_principal handle_request_error
avatar_uploaded seen now (ok p) s =
    do_security notice_avatar
      (record (on_app (update_session_principal seen p) s) { avatar_version = now })
avatar_uploaded seen now auth_error s = on_app (handle_request_error {A = Unit {0}} auth_error) s
avatar_uploaded seen now (error e) s = on_app (handle_request_error {A = Unit {0}} (error e)) s

unfoldable pub totp_begun : Reply TotpSetup → Security → Security
unfolding handle_request_error
totp_begun (ok setup) s = record s { totp_setup = some setup }
totp_begun auth_error s = on_app (handle_request_error {A = Unit {0}} auth_error) s
totp_begun (error e) s = on_app (handle_request_error {A = Unit {0}} (error e)) s

unfoldable pub totp_confirmed : Option AuthSession → Reply Principal → Security → Security
unfolding update_session_principal handle_request_error
totp_confirmed seen (ok p) s =
    do_security notice_totp_on (record (on_app (update_session_principal seen p) s) {
      totp_setup = none;
      totp_confirm_code = [];
    })
totp_confirmed seen auth_error s = on_app (handle_request_error {A = Unit {0}} auth_error) s
totp_confirmed seen (error e) s = on_app (handle_request_error {A = Unit {0}} (error e)) s

unfoldable pub totp_disabled : Option AuthSession → Reply Principal → Security → Security
unfolding update_session_principal handle_request_error
totp_disabled seen (ok p) s =
    do_security notice_totp_off (record (on_app (update_session_principal seen p) s) {
      totp_disable_password = [];
      totp_disable_code = [];
    })
totp_disabled seen auth_error s = on_app (handle_request_error {A = Unit {0}} auth_error) s
totp_disabled seen (error e) s = on_app (handle_request_error {A = Unit {0}} (error e)) s

abbrev pub current_of : List AccountSession → Option AccountSession
current_of [] = none
current_of (t ∷ ts) = if is_current t then some t else current_of ts

-- `logout`: it revokes the current session if it is known, and else only leaves it here.
unfoldable pub logout :
    Option AuthSession → Option (List AccountSession) → Security → Security × Option Mutation
unfolding logout_local revoke_session_fn
logout session sessions s = elim (current_of (elim sessions [ none ↦ [] | some ts ↦ ts ])) [
  | none ↦ (on_app (logout_local true) s, none)
  | some t ↦ elim session [
    | none ↦ (on_app (logout_local true) s, none)
    | some here ↦ (s, some (revoke_session_fn (some here) t))
  ]
]
