-- ===== src/Session/Account.antt =====
-- Logging in and out, and a session's end. (frontend/src/components/MessengerApp.tsx)
use quiteline.Base.{
  Bool, true, false, List, [], ◌∷◌, ◌++◌, Option, none, some, Str, str_eq, truthy, if◌then◌else◌,
  codes, get_or, or_else, String,
}
use quiteline.Js.OrderedMap.{get, set}
use quiteline.Wire.{AuthSession, Identity, Principal, Reply, ok, auth_error, error}
use quiteline.Session.State.{
  App, rooms, AppDeed, clear_queries, close_socket, notice_expired, notice_error, ask_identity,
  ask_principal, ask_logout,
}

abbrev pub do_app : AppDeed → App → App
do_app d a = record a { deeds = a.deeds ++ d ∷ [] }

-- `accountStorageID`.
unfoldable pub account_storage_id : Option AuthSession → Str
account_storage_id none = []
account_storage_id (some s) = or_else s.principal.user_id s.principal.client_id

unfoldable pub account_scoped_key : String → Str → Str
account_scoped_key base account = codes base ++ (b'.' ∷ account)

abbrev pub secrets_key : Str → Str
secrets_key account = account_scoped_key "zk.roomSecrets.v1" account

abbrev pub deleted_key : Str → Str
deleted_key account = account_scoped_key "quietline.deletedMessages.v1" account

-- `persistRoomSecrets`; `session` is the closure's.
unfoldable pub persist_room_secrets : Option AuthSession → List (Str × Str) → App → App
unfolding account_storage_id account_scoped_key
persist_room_secrets session next a =
    if truthy (account_storage_id session)
    then record a {
      room_secrets = next;
      stored_secrets = set (secrets_key (account_storage_id session)) next a.stored_secrets;
    }
    else record a { room_secrets = next }

unfoldable pub persist_local_deleted_messages : Option AuthSession → List (Str × Bool) → App → App
unfolding account_storage_id account_scoped_key
persist_local_deleted_messages session next a =
    if truthy (account_storage_id session)
    then record a {
      local_deleted = next;
      stored_deleted = set (deleted_key (account_storage_id session)) next a.stored_deleted;
    }
    else record a { local_deleted = next }

-- `accountId ? readStoredJSON(key) : null`, and `?? {}`.
abbrev pub read_stored : {V : Type 0} → Str → Str → List (Str × List (Str × V)) → List (Str × V)
read_stored account key stored = if truthy account then get_or (get key stored) [] else []

unfoldable pub load_account_local_state : Bool → AuthSession → App → App
unfolding account_storage_id account_scoped_key
load_account_local_state is_mobile target a =
    let account = account_storage_id (some target) in
    record a {
      identity = none;
      room_secrets = read_stored account (secrets_key account) a.stored_secrets;
      local_deleted = read_stored account (deleted_key account) a.stored_deleted;
      active_room = [];
      highlighted = [];
      live = [];
      pending = [];
      typing_users = [];
      presence = [];
      actions_opened = false;
      leave_opened = false;
      totp_required = false;
      totp_code = [];
      mobile_view = if is_mobile then rooms else a.mobile_view;
      sidebar_view = if is_mobile then a.sidebar_view else rooms;
      deeds = a.deeds ++ ask_identity target.access_token ∷ ask_principal target.access_token ∷ [];
    }

unfoldable pub clear_account_local_state : App → App
clear_account_local_state a = record a {
  identity = none;
  room_secrets = [];
  local_deleted = [];
  active_room = [];
  highlighted = [];
  live = [];
  pending = [];
  typing_users = [];
  presence = [];
  mobile_view = rooms;
  sidebar_view = rooms;
  actions_opened = false;
  leave_opened = false;
  totp_required = false;
  totp_code = [];
}

unfoldable pub handle_auth_expired : App → App
unfolding clear_account_local_state
handle_auth_expired a =
    if a.is_notified
    then a
    else do_app notice_expired
        (record (clear_account_local_state
          (do_app close_socket (do_app clear_queries (record a { is_notified = true })))) {
            session = none;
          })

-- `handleRequestError`, on what a request has ended in.
unfoldable pub handle_request_error : {A : Type 0} → Reply A → App → App
unfolding handle_auth_expired
handle_request_error (ok v) a = a
handle_request_error auth_error a = handle_auth_expired a
handle_request_error (error e) a = do_app (notice_error e) a

unfoldable pub save_session : Bool → Bool → AuthSession → App → App
unfolding load_account_local_state
save_session is_mobile reload next a =
    let saved = record a { is_notified = false; session = some next } in
    if reload then load_account_local_state is_mobile next saved else saved

-- What the answers to the requests of `loadAccountLocalState` do.
unfoldable pub identity_loaded : Reply Identity → App → App
unfolding handle_auth_expired
identity_loaded (ok id) a = record a { identity = some id }
identity_loaded auth_error a = handle_auth_expired a
identity_loaded (error e) a = do_app (notice_error e) a

unfoldable pub principal_loaded : AuthSession → Reply Principal → App → App
principal_loaded target (ok p) a = elim a.session [
  | none ↦ a
  | some current ↦
      if str_eq current.access_token target.access_token
      then record a { session = some (record target { principal = p }) }
      else a
]
principal_loaded target auth_error a = a
principal_loaded target (error e) a = a

-- `logoutLocal`, but for the presence that it sends.
unfoldable pub logout_local : Bool → App → App
unfolding clear_account_local_state
logout_local remote a =
    let told = if remote then do_app ask_logout a else a in
    record (clear_account_local_state (do_app close_socket (do_app clear_queries told))) {
      session = none;
    }
