-- ===== src/Api/Calls.antt =====
-- Files, calls and the names of rooms. (frontend/src/lib/api.ts)
use quiteline.Base.{false, List, [], ◌∷◌, ◌++◌, Option, ℕ, Str, codes}
use quiteline.Wire.{CallOutcome, completed, missed, declined}
use quiteline.Api.Request.{
  Request, get, post, patch, no_body, json, form, blob, value, fixed, component, plain, number,
  field, optional_field, auth_headers, bearer,
}

abbrev outcome_name : CallOutcome → Str
outcome_name completed = codes "completed"
outcome_name missed = codes "missed"
outcome_name declined = codes "declined"

abbrev pub upload_encrypted_file : Str → Str → List ℕ → Request
upload_encrypted_file token room_id file = record {
  method = post;
  path = fixed (codes "/v1/chat/files") ∷ [];
  headers = bearer token ∷ [];
  body =
      form
        ((codes "file", blob file (codes "encrypted.bin")) ∷ (codes "roomId", value room_id) ∷ []);
  with_credentials = false;
}

abbrev pub download_encrypted_file : Str → Str → Str → Request
download_encrypted_file token file_id room_id = record {
  method = get;
  path =
      fixed (codes "/v1/chat/files/")
      ∷ component file_id
      ∷ fixed (codes "?roomId=")
      ∷ component room_id
      ∷ [];
  headers = bearer token ∷ [];
  body = no_body;
  with_credentials = false;
}

abbrev pub update_room_name : Str → Str → Str → Request
update_room_name token room_id name = record {
  method = patch;
  path = fixed (codes "/v1/chat/rooms/") ∷ component room_id ∷ fixed (codes "/name") ∷ [];
  headers = auth_headers token;
  body = json (field "name" name ∷ []);
  with_credentials = false;
}

abbrev pub append_call_log :
    Str → Str → Str → Str → CallOutcome → ℕ → Option Str → Option Str → Request
append_call_log token room_id caller_id callee_id status duration_sec started_at ended_at = record {
  method = post;
  path = fixed (codes "/v1/calls") ∷ [];
  headers = auth_headers token;
  body = json (
      (field "roomId" room_id
        ∷ field "callerId" caller_id
        ∷ field "calleeId" callee_id
        ∷ field "status" (outcome_name status)
        ∷ (codes "durationSec", plain (number duration_sec))
        ∷ optional_field "startedAt" started_at)
      ++ optional_field "endedAt" ended_at);
  with_credentials = false;
}

abbrev pub list_call_logs : Str → Request
list_call_logs token = record {
  method = get;
  path = fixed (codes "/v1/calls") ∷ [];
  headers = auth_headers token;
  body = no_body;
  with_credentials = false;
}

abbrev pub fetch_call_ice_servers : Str → Request
fetch_call_ice_servers token = record {
  method = get;
  path = fixed (codes "/v1/calls/ice-servers") ∷ [];
  headers = auth_headers token;
  body = no_body;
  with_credentials = false;
}
