-- ===== src/Api/Account.antt =====
-- The account. (frontend/src/lib/api.ts)
use quiteline.Base.{true, false, List, [], ◌∷◌, Option, ℕ, Str, codes}
use quiteline.Wire.{Theme, light, dark}
use quiteline.Api.Request.{
  Request, get, post, put, delete, no_body, json, form, blob, fixed, field, optional_field,
  auth_headers, bearer,
}

abbrev pub theme_name : Theme → Str
theme_name light = codes "light"
theme_name dark = codes "dark"

abbrev pub fetch_health : Request
fetch_health = record {
  method = get;
  path = fixed (codes "/healthz") ∷ [];
  headers = [];
  body = no_body;
  with_credentials = false;
}

abbrev pub register_user : Str → Str → Str → Request
register_user username password display_name = record {
  method = post;
  path = fixed (codes "/v1/auth/register") ∷ [];
  headers = (codes "Content-Type", codes "application/json") ∷ [];
  body = json (
      field "username" username
      ∷ field "password" password
      ∷ field "displayName" display_name
      ∷ []);
  with_credentials = true;
}

abbrev pub login_user : Str → Str → Option Str → Request
login_user username password totp_code = record {
  method = post;
  path = fixed (codes "/v1/auth/login") ∷ [];
  headers = (codes "Content-Type", codes "application/json") ∷ [];
  body =
      json (
        field "username" username
        ∷ field "password" password
        ∷ optional_field "totpCode" totp_code);
  with_credentials = true;
}

abbrev pub refresh_session : Request
refresh_session = record {
  method = post;
  path = fixed (codes "/v1/auth/refresh") ∷ [];
  headers = [];
  body = no_body;
  with_credentials = true;
}

abbrev pub logout_session : Request
logout_session = record {
  method = post;
  path = fixed (codes "/v1/auth/logout") ∷ [];
  headers = [];
  body = no_body;
  with_credentials = true;
}

abbrev pub update_display_name : Str → Str → Request
update_display_name token display_name = record {
  method = put;
  path = fixed (codes "/v1/me/display-name") ∷ [];
  headers = auth_headers token;
  body = json (field "displayName" display_name ∷ []);
  with_credentials = false;
}

abbrev pub update_theme : Str → Theme → Request
update_theme token theme = record {
  method = put;
  path = fixed (codes "/v1/me/theme") ∷ [];
  headers = auth_headers token;
  body = json (field "theme" (theme_name theme) ∷ []);
  with_credentials = false;
}

abbrev pub fetch_current_principal : Str → Request
fetch_current_principal token = record {
  method = get;
  path = fixed (codes "/v1/me") ∷ [];
  headers = auth_headers token;
  body = no_body;
  with_credentials = false;
}

abbrev pub upload_avatar : Str → List ℕ → Request
upload_avatar token image = record {
  method = put;
  path = fixed (codes "/v1/me/avatar") ∷ [];
  headers = bearer token ∷ [];
  body = form ((codes "avatar", blob image (codes "avatar.webp")) ∷ []);
  with_credentials = false;
}

abbrev pub begin_totp_setup : Str → Request
begin_totp_setup token = record {
  method = post;
  path = fixed (codes "/v1/me/2fa/setup") ∷ [];
  headers = auth_headers token;
  body = json [];
  with_credentials = false;
}

abbrev pub confirm_totp : Str → Str → Request
confirm_totp token code = record {
  method = post;
  path = fixed (codes "/v1/me/2fa/confirm") ∷ [];
  headers = auth_headers token;
  body = json (field "code" code ∷ []);
  with_credentials = false;
}

abbrev pub disable_totp : Str → Str → Str → Request
disable_totp token password code = record {
  method = delete;
  path = fixed (codes "/v1/me/2fa") ∷ [];
  headers = auth_headers token;
  body = json (field "password" password ∷ field "code" code ∷ []);
  with_credentials = false;
}

abbrev pub fetch_current_identity : Str → Request
fetch_current_identity token = record {
  method = get;
  path = fixed (codes "/v1/me/identity") ∷ [];
  headers = auth_headers token;
  body = no_body;
  with_credentials = false;
}
