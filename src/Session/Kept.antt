-- ===== src/Session/Kept.antt =====
-- What an account's state keeps and loses. (frontend/src/components/MessengerApp.tsx)
use quiteline.Base.{
  ◌≡◌, refl, ap, ◌∙◌, Bool, true, false, List, [], ◌∷◌, ◌++◌, Option, none, some, ℕ, ◌+◌, ◌*◌, ◌≤◌,
  Str, str_eq, truthy, if◌then◌else◌, arith, ◌⊎◌, inl, inr, Bool-cases, get_or, codes,
}
use quiteline.Js.OrderedMap.{get, set, get-set}
use quiteline.Wire.{AuthSession, ok}
use quiteline.Session.State.{App, rooms}
use quiteline.Session.Account.{
  account_storage_id, account_scoped_key, secrets_key, persist_room_secrets, read_stored,
  load_account_local_state, clear_account_local_state, save_session, logout_local,
}
use quiteline.Session.Login.{apply_location, Location, session_restored, refresh_in_ms}

-- What is left of a client's account is its display name, its theme, and what is stored; the views
-- are the ones of the start.
abbrev pub IsSignedOut : App → App → Type 0
IsSignedOut a b =
    (b.session ≡ none)
    × (b.identity ≡ none)
    × (b.room_secrets ≡ [])
    × (b.local_deleted ≡ [])
    × (b.active_room ≡ [])
    × (b.highlighted ≡ [])
    × (b.live ≡ [])
    × (b.pending ≡ [])
    × (b.typing_users ≡ [])
    × (b.presence ≡ [])
    × (b.mobile_view ≡ rooms)
    × (b.sidebar_view ≡ rooms)
    × (b.actions_opened ≡ false)
    × (b.leave_opened ≡ false)
    × (b.totp_required ≡ false)
    × (b.totp_code ≡ [])
    × (b.display_name ≡ a.display_name)
    × (b.color_scheme ≡ a.color_scheme)
    × (b.stored_secrets ≡ a.stored_secrets)
    × (b.stored_deleted ≡ a.stored_deleted)

str_eq-append : (p a b : Str) → str_eq (p ++ a) (p ++ b) ≡ str_eq a b
unfolding str_eq
str_eq-append [] a b = refl
str_eq-append (c ∷ p) a b = ground (arith, str_eq-append p a b)

str_eq-secrets_key : (a b : Str) → str_eq (secrets_key a) (secrets_key b) ≡ str_eq a b
unfolding account_scoped_key
str_eq-secrets_key a b =
    str_eq-append (codes "zk.roomSecrets.v1") (b'.' ∷ a) (b'.' ∷ b) ∙ str_eq-append (b'.' ∷ []) a b

get_or-if :
    (b : Bool) (v : List (Str × Str)) (o : Option (List (Str × Str)))
    → get_or (if b then some v else o) [] ≡ (if b then v else get_or o [])
get_or-if true v o = refl
get_or-if false v o = refl

no_account : (m o : Str) → truthy m ≡ true → truthy o ≡ false → str_eq m o ≡ false
unfolding str_eq
no_account [] o t e = cc
no_account (c ∷ m) [] t e = refl
no_account (c ∷ m) (d ∷ o) t e = cc

read_stored-set :
    (m o : Str) (v : List (Str × Str)) (stored : List (Str × List (Str × Str)))
    → truthy m ≡ true
    → read_stored o (secrets_key o) (set (secrets_key m) v stored)
      ≡ (if str_eq m o then v else read_stored o (secrets_key o) stored)
read_stored-set m o v stored t = elim (Bool-cases (truthy o)) [
  | inl e ↦ rw e (
      ap (λ (r : Option (List (Str × Str))). get_or r [])
        (get-set (secrets_key m) (secrets_key o) v stored)
      ∙ get_or-if (str_eq (secrets_key m) (secrets_key o)) v (get (secrets_key o) stored)
      ∙ rw (str_eq-secrets_key m o) refl)
  | inr e ↦ rw e (rw (no_account m o t e) refl)
]

-- The secrets that a client keeps for an account are there again when the account's session is saved
-- after a logout; and for another account the logout and the secrets change nothing.
pub secrets_return :
    (is_mobile remote : Bool) (s next : AuthSession) (secrets : List (Str × Str)) (a : App)
    → truthy (account_storage_id (some s)) ≡ true
    → (save_session is_mobile true next
        (logout_local remote (persist_room_secrets (some s) secrets a))).room_secrets
      ≡ (if str_eq (account_storage_id (some s)) (account_storage_id (some next))
          then secrets
          else (save_session is_mobile true next a).room_secrets)
unfolding save_session load_account_local_state logout_local clear_account_local_state
    persist_room_secrets
secrets_return is_mobile true s next secrets a t = rw t (
    read_stored-set (account_storage_id (some s)) (account_storage_id (some next)) secrets
      a.stored_secrets t)
secrets_return is_mobile false s next secrets a t = rw t (
    read_stored-set (account_storage_id (some s)) (account_storage_id (some next)) secrets
      a.stored_secrets t)

-- A client that is loaded at a link to a room or a message, and whose session is then restored, has
-- neither the room nor the message open, whatever the link.
pub link_lost :
    (is_mobile : Bool) (s : AuthSession) (l : Location) (a : App)
    → ((session_restored is_mobile (ok s) (apply_location l a)).active_room ≡ [])
      × ((session_restored is_mobile (ok s) (apply_location l a)).highlighted ≡ [])
unfolding session_restored save_session load_account_local_state
link_lost is_mobile s l a = (refl, refl)

-- The session is refreshed in 30 seconds at the earliest, and, of a session that lives for another
-- minute and a half, just one minute before its end.
pub refresh_in_time :
    (expires_at now : ℕ)
    → (30000 ≤ refresh_in_ms expires_at now)
      × ((now + 90000 ≤ expires_at * 1000)
            × (now + refresh_in_ms expires_at now + 60000 ≡ expires_at * 1000)
          ⊎ (refresh_in_ms expires_at now ≡ 30000))
unfolding refresh_in_ms
refresh_in_time expires_at now = ground arith
