-- ===== src/Api/People.antt =====
-- Friends and identities. (frontend/src/lib/api.ts)
use quiteline.Base.{Bool, false, [], ◌∷◌, ◌++◌, Str, if◌then◌else◌, codes}
use quiteline.Api.Request.{
  Request, get, post, put, no_body, json, fixed, component, field, auth_headers,
}

abbrev pub fetch_friends : Str → Request
fetch_friends token = record {
  method = get;
  path = fixed (codes "/v1/chat/friends") ∷ [];
  headers = auth_headers token;
  body = no_body;
  with_credentials = false;
}

abbrev pub request_friend : Str → Str → Request
request_friend token friend_code = record {
  method = post;
  path = fixed (codes "/v1/chat/friends") ∷ [];
  headers = auth_headers token;
  body = json (field "friendCode" friend_code ∷ []);
  with_credentials = false;
}

abbrev pub respond_friend : Str → Str → Bool → Request
respond_friend token user_id accept = record {
  method = post;
  path =
      fixed (codes "/v1/chat/friends/")
      ∷ component user_id
      ∷ fixed (codes "/" ++ (if accept then codes "accept" else codes "decline"))
      ∷ [];
  headers = auth_headers token;
  body = json [];
  with_credentials = false;
}

abbrev pub upsert_identity : Str → Str → Str → Str → Request
upsert_identity user_id display_name identity_public_key token = record {
  method = put;
  path = fixed (codes "/v1/chat/identities/") ∷ component user_id ∷ [];
  headers = auth_headers token;
  body =
      json (field "displayName" display_name ∷ field "identityPublicKey" identity_public_key ∷ []);
  with_credentials = false;
}

abbrev pub fetch_identity : Str → Str → Request
fetch_identity user_id token = record {
  method = get;
  path = fixed (codes "/v1/chat/identities/") ∷ component user_id ∷ [];
  headers = auth_headers token;
  body = no_body;
  with_credentials = false;
}

abbrev pub touch_identity : Str → Str → Request
touch_identity user_id token = record {
  method = put;
  path = fixed (codes "/v1/chat/identities/") ∷ component user_id ∷ fixed (codes "/last-seen") ∷ [];
  headers = auth_headers token;
  body = json [];
  with_credentials = false;
}
