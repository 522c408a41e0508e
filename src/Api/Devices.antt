-- ===== src/Api/Devices.antt =====
-- The account's sessions and push subscriptions. (frontend/src/lib/api.ts)
use quiteline.Base.{Bool, false, [], ◌∷◌, Str, codes}
use quiteline.Api.Request.{
  Request, get, post, put, delete, no_body, json, fixed, component, object, text, flag, Json, field,
  auth_headers, bearer,
}

pub record PushPreferences : Type 0 where
  pub messages : Bool
  pub chats : Bool
  pub sessions : Bool
  pub friends : Bool

abbrev preference_fields : PushPreferences → Json
preference_fields p = object (
    (codes "messages", flag p.messages)
    ∷ (codes "chats", flag p.chats)
    ∷ (codes "sessions", flag p.sessions)
    ∷ (codes "friends", flag p.friends)
    ∷ [])

abbrev pub fetch_account_sessions : Str → Request
fetch_account_sessions token = record {
  method = get;
  path = fixed (codes "/v1/me/sessions") ∷ [];
  headers = auth_headers token;
  body = no_body;
  with_credentials = false;
}

abbrev pub revoke_account_session : Str → Str → Request
revoke_account_session token session_id = record {
  method = delete;
  path = fixed (codes "/v1/me/sessions/") ∷ component session_id ∷ [];
  headers = bearer token ∷ [];
  body = no_body;
  with_credentials = false;
}

abbrev pub revoke_other_account_sessions : Str → Request
revoke_other_account_sessions token = record {
  method = delete;
  path = fixed (codes "/v1/me/sessions/others") ∷ [];
  headers = bearer token ∷ [];
  body = no_body;
  with_credentials = false;
}

abbrev pub fetch_push_public_key : Str → Request
fetch_push_public_key token = record {
  method = get;
  path = fixed (codes "/v1/me/push-public-key") ∷ [];
  headers = auth_headers token;
  body = no_body;
  with_credentials = false;
}

abbrev pub fetch_push_subscriptions : Str → Request
fetch_push_subscriptions token = record {
  method = get;
  path = fixed (codes "/v1/me/push-subscriptions") ∷ [];
  headers = auth_headers token;
  body = no_body;
  with_credentials = false;
}

abbrev pub save_push_subscription : Str → Str → Str → Str → PushPreferences → Request
save_push_subscription token endpoint p256dh auth preferences = record {
  method = post;
  path = fixed (codes "/v1/me/push-subscriptions") ∷ [];
  headers = auth_headers token;
  body = json (
      field "endpoint" endpoint
      ∷ (codes "keys", object ((codes "p256dh", text p256dh) ∷ (codes "auth", text auth) ∷ []))
      ∷ (codes "preferences", preference_fields preferences)
      ∷ []);
  with_credentials = false;
}

abbrev pub update_push_subscription : Str → Str → PushPreferences → Request
update_push_subscription token id preferences = record {
  method = put;
  path = fixed (codes "/v1/me/push-subscriptions/") ∷ component id ∷ [];
  headers = auth_headers token;
  body = json ((codes "preferences", preference_fields preferences) ∷ []);
  with_credentials = false;
}

abbrev pub delete_push_subscription : Str → Str → Request
delete_push_subscription token id = record {
  method = delete;
  path = fixed (codes "/v1/me/push-subscriptions/") ∷ component id ∷ [];
  headers = bearer token ∷ [];
  body = no_body;
  with_credentials = false;
}

abbrev pub send_test_push : Str → Request
send_test_push token = record {
  method = post;
  path = fixed (codes "/v1/me/push-test") ∷ [];
  headers = auth_headers token;
  body = json [];
  with_credentials = false;
}
