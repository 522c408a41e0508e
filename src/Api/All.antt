-- ===== src/Api/All.antt =====
-- The requests that only a client with a session makes. (frontend/src/lib/api.ts)
use quiteline.Base.{Bool, List, [], ◌∷◌, some, ℕ, Str}
use quiteline.Wire.{Theme, CallOutcome}
use quiteline.Api.Request.{Request}
use quiteline.Api.Account.{
  update_display_name, update_theme, fetch_current_principal, upload_avatar, begin_totp_setup,
  confirm_totp, disable_totp, fetch_current_identity,
}
use quiteline.Api.Devices.{
  fetch_account_sessions, revoke_account_session, revoke_other_account_sessions,
  fetch_push_public_key, fetch_push_subscriptions, save_push_subscription, update_push_subscription,
  delete_push_subscription, send_test_push, PushPreferences,
}
use quiteline.Api.People.{
  fetch_friends, request_friend, respond_friend, upsert_identity, fetch_identity, touch_identity,
}
use quiteline.Api.Calls.{
  upload_encrypted_file, download_encrypted_file, update_room_name, append_call_log, list_call_logs,
  fetch_call_ice_servers,
}
use quiteline.Api.Chat.{
  create_room, fetch_rooms, leave_room, invite_friend_to_room, mark_room_read, fetch_messages,
  fetch_message_context, fetch_attachment_messages, send_encrypted_message,
  update_encrypted_message, delete_encrypted_message_for_all, toggle_message_reaction,
}

-- What the requests are made of: texts that the caller chooses, and the rest.
pub record Inputs : Type 0 where
  pub token : Str
  pub first : Str
  pub second : Str
  pub third : Str
  pub fourth : Str
  pub fifth : Str
  pub sixth : Str
  pub letter : ℕ
  pub words : List Str
  pub bytes : List ℕ
  pub number : ℕ
  pub theme : Theme
  pub outcome : CallOutcome
  pub accept : Bool
  pub preferences : PushPreferences

abbrev pub requests : Inputs → List Request
requests i =
    update_display_name i.token i.first
    ∷ update_theme i.token i.theme
    ∷ fetch_current_principal i.token
    ∷ upload_avatar i.token i.bytes
    ∷ begin_totp_setup i.token
    ∷ confirm_totp i.token i.first
    ∷ disable_totp i.token i.first i.second
    ∷ fetch_current_identity i.token
    ∷ fetch_account_sessions i.token
    ∷ revoke_account_session i.token i.first
    ∷ revoke_other_account_sessions i.token
    ∷ fetch_push_public_key i.token
    ∷ fetch_push_subscriptions i.token
    ∷ save_push_subscription i.token i.first i.second i.third i.preferences
    ∷ update_push_subscription i.token i.first i.preferences
    ∷ delete_push_subscription i.token i.first
    ∷ send_test_push i.token
    ∷ fetch_friends i.token
    ∷ request_friend i.token i.first
    ∷ respond_friend i.token i.first i.accept
    ∷ upsert_identity i.first i.second i.third i.token
    ∷ fetch_identity i.first i.token
    ∷ touch_identity i.first i.token
    ∷ create_room (some i.first) i.second i.words (some i.third) i.token
    ∷ fetch_rooms i.token
    ∷ leave_room i.first i.second i.token
    ∷ invite_friend_to_room i.token i.first i.second
    ∷ mark_room_read i.token i.first
    ∷ fetch_messages i.first i.token (some (i.letter ∷ i.second))
    ∷ fetch_message_context i.first i.second i.token
    ∷ fetch_attachment_messages i.first i.token
    ∷ send_encrypted_message i.first i.second i.third i.fourth i.fifth i.sixth i.token
    ∷ update_encrypted_message i.first i.second i.third i.fourth i.fifth i.sixth i.token
    ∷ delete_encrypted_message_for_all i.first i.second i.token
    ∷ toggle_message_reaction i.first i.second i.third i.token
    ∷ upload_encrypted_file i.token i.first i.bytes
    ∷ download_encrypted_file i.token i.first i.second
    ∷ update_room_name i.token i.first i.second
    ∷ append_call_log i.token i.first i.second i.third i.outcome i.number (some i.fourth)
        (some i.fifth)
    ∷ list_call_logs i.token
    ∷ fetch_call_ice_servers i.token
    ∷ []
