-- ===== src/Examples/Account.antt =====
-- Accounts, and texts that carry bytes.
use quiteline.Base.{refl, codes, [], ◌∷◌, ◌≡◌, some, none, true, false, str_eq, arith}
use quiteline.Wire.{Room, light}
use quiteline.Session.State.{App, chat, rooms}
use quiteline.Session.Account.{save_session, logout_local, persist_room_secrets, account_storage_id}
use quiteline.Session.Login.{Location}
use quiteline.Session.Kept.{secrets_return}
use quiteline.Codec.Base64.{
  base64_url_to_bytes, bytes_to_base64_url, btoa, char6, sextets, missing, replace_all, remove_all,
}
use quiteline.Codec.RoundTrip.{base64_url_to_bytes-bytes_to_base64_url}
use quiteline.Examples.Data.{alice, alice_session, room, first}

abbrev pub app : App
app = record {
  session = some alice_session;
  identity = some alice;
  room_secrets = (room, codes "secret") ∷ (codes "q", codes "other") ∷ [];
  local_deleted = (codes "m7", true) ∷ [];
  active_room = room;
  highlighted = codes "m1";
  live = first ∷ [];
  pending = [];
  typing_users = [];
  presence = [];
  mobile_view = rooms;
  sidebar_view = rooms;
  actions_opened = false;
  leave_opened = true;
  totp_required = false;
  totp_code = [];
  auth_error = [];
  invite_text = [];
  color_scheme = light;
  display_name = codes "Alice";
  bootstrapped = true;
  is_notified = false;
  stored_secrets = [];
  stored_deleted = [];
  deeds = [];
}

secrets_return_example :
    (save_session true true alice_session (
      logout_local true
        (persist_room_secrets (some alice_session) app.room_secrets app))).room_secrets
    ≡ app.room_secrets
unfolding str_eq account_storage_id
secrets_return_example =
    secrets_return true true alice_session alice_session app.room_secrets app refl

abbrev link : Location
link = record { invite = []; chat_id = room; message_id = codes "m1"; view = chat }

abbrev new_room : Room
new_room = record {
  room_id = codes "n";
  name = codes "new";
  members = codes "alice" ∷ [];
  member_profiles = none;
  room_secret = none;
  last_message_at = none;
  unread_count = none;
  created_at = 1 ∷ [];
}

base64_url_to_bytes-bytes_to_base64_url_example :
    base64_url_to_bytes (codes "-_8B") ≡ some (251 ∷ 255 ∷ 1 ∷ [])
unfolding bytes_to_base64_url btoa char6 sextets missing replace_all remove_all
base64_url_to_bytes-bytes_to_base64_url_example =
    base64_url_to_bytes-bytes_to_base64_url (251 ∷ 255 ∷ 1 ∷ [])
      (omega arith, (omega arith, (omega arith, tt)))
