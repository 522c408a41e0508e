-- ===== src/Session/Stale.antt =====
-- An answer that comes after its session has ended. (frontend/src/components/MessengerApp.tsx)
use quiteline.Base.{◌≡◌, Bool, none, some, Str, arith}
use quiteline.Wire.{AuthSession, Principal, ok}
use quiteline.Session.State.{App}
use quiteline.Session.Account.{logout_local, clear_account_local_state}
use quiteline.Session.Security.{Security, on_app, theme_saved, update_session_principal}

-- If the user logs out while the server saves a theme, the answer gives the client its session back,
-- with the old token, and without an identity.
pub theme_saved-logout_local :
    (seen : App) (unauthorized : Str) (p : Principal) (remote : Bool) (s : Security)
    (old : AuthSession)
    → seen.session ≡ some old
    → ((on_app (logout_local remote) s).app.session ≡ none)
      × ((theme_saved seen unauthorized (ok p) (on_app (logout_local remote) s)).app.session
          ≡ some (record old { principal = p }))
      × ((theme_saved seen unauthorized (ok p) (on_app (logout_local remote) s)).app.identity
          ≡ none)
unfolding theme_saved update_session_principal logout_local clear_account_local_state
theme_saved-logout_local seen unauthorized p remote s old e = ground (arith, e)
