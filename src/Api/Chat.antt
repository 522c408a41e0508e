-- ===== src/Api/Chat.antt =====
-- Rooms, messages, and messages. (frontend/src/lib/api.ts)
use quiteline.Base.{
  false, List, [], ◌∷◌, ◌++◌, Option, none, some, Str, if◌then◌else◌, codes, truthy,
}
use quiteline.Api.Request.{
  Request, get, post, put, delete, no_body, json, fixed, component, Piece, plain, texts, field,
  optional_field, auth_headers, bearer,
}

-- The query that asks for what is older than a date.
abbrev pub cursor : Option Str → List Piece
cursor none = []
cursor (some before) =
    if truthy before then fixed (codes "?before=") ∷ component before ∷ [] else []

abbrev pub create_room : Option Str → Str → List Str → Option Str → Str → Request
create_room room_id name members room_secret token = record {
  method = post;
  path = fixed (codes "/v1/chat/rooms") ∷ [];
  headers = auth_headers token;
  body = json (
      optional_field "roomId" room_id
      ++ field "name" name
        ∷ (codes "members", plain (texts members))
        ∷ optional_field "roomSecret" room_secret);
  with_credentials = false;
}

abbrev pub fetch_rooms : Str → Request
fetch_rooms token = record {
  method = get;
  path = fixed (codes "/v1/chat/rooms") ∷ [];
  headers = auth_headers token;
  body = no_body;
  with_credentials = false;
}

abbrev pub leave_room : Str → Str → Str → Request
leave_room room_id user_id token = record {
  method = delete;
  path =
      fixed (codes "/v1/chat/rooms/")
      ∷ component room_id
      ∷ fixed (codes "/members/")
      ∷ component user_id
      ∷ [];
  headers = bearer token ∷ [];
  body = no_body;
  with_credentials = false;
}

abbrev pub invite_friend_to_room : Str → Str → Str → Request
invite_friend_to_room token room_id user_id = record {
  method = post;
  path = fixed (codes "/v1/chat/rooms/") ∷ component room_id ∷ fixed (codes "/friends") ∷ [];
  headers = auth_headers token;
  body = json (field "userId" user_id ∷ []);
  with_credentials = false;
}

abbrev pub mark_room_read : Str → Str → Request
mark_room_read token room_id = record {
  method = post;
  path = fixed (codes "/v1/chat/rooms/") ∷ component room_id ∷ fixed (codes "/read") ∷ [];
  headers = auth_headers token;
  body = json [];
  with_credentials = false;
}

abbrev pub fetch_messages : Str → Str → Option Str → Request
fetch_messages room_id token before = record {
  method = get;
  path =
      fixed (codes "/v1/chat/rooms/")
      ∷ component room_id
      ∷ fixed (codes "/messages")
      ∷ cursor before;
  headers = auth_headers token;
  body = no_body;
  with_credentials = false;
}

abbrev pub fetch_message_context : Str → Str → Str → Request
fetch_message_context room_id message_id token = record {
  method = get;
  path =
      fixed (codes "/v1/chat/rooms/")
      ∷ component room_id
      ∷ fixed (codes "/messages/")
      ∷ component message_id
      ∷ fixed (codes "/context")
      ∷ [];
  headers = auth_headers token;
  body = no_body;
  with_credentials = false;
}

abbrev pub fetch_attachment_messages : Str → Str → Request
fetch_attachment_messages room_id token = record {
  method = get;
  path = fixed (codes "/v1/chat/rooms/") ∷ component room_id ∷ fixed (codes "/attachments") ∷ [];
  headers = auth_headers token;
  body = no_body;
  with_credentials = false;
}

abbrev pub send_encrypted_message : Str → Str → Str → Str → Str → Str → Str → Request
send_encrypted_message room_id sender_id ciphertext nonce algorithm key_id token = record {
  method = post;
  path = fixed (codes "/v1/chat/rooms/") ∷ component room_id ∷ fixed (codes "/messages") ∷ [];
  headers = auth_headers token;
  body = json (
      field "senderId" sender_id
      ∷ field "ciphertext" ciphertext
      ∷ field "nonce" nonce
      ∷ field "algorithm" algorithm
      ∷ field "keyId" key_id
      ∷ []);
  with_credentials = false;
}

abbrev pub update_encrypted_message : Str → Str → Str → Str → Str → Str → Str → Request
update_encrypted_message room_id message_id ciphertext nonce algorithm key_id token = record {
  method = put;
  path =
      fixed (codes "/v1/chat/rooms/")
      ∷ component room_id
      ∷ fixed (codes "/messages/")
      ∷ component message_id
      ∷ [];
  headers = auth_headers token;
  body = json (
      field "ciphertext" ciphertext
      ∷ field "nonce" nonce
      ∷ field "algorithm" algorithm
      ∷ field "keyId" key_id
      ∷ []);
  with_credentials = false;
}

abbrev pub delete_encrypted_message_for_all : Str → Str → Str → Request
delete_encrypted_message_for_all room_id message_id token = record {
  method = delete;
  path =
      fixed (codes "/v1/chat/rooms/")
      ∷ component room_id
      ∷ fixed (codes "/messages/")
      ∷ component message_id
      ∷ [];
  headers = bearer token ∷ [];
  body = no_body;
  with_credentials = false;
}

abbrev pub toggle_message_reaction : Str → Str → Str → Str → Request
toggle_message_reaction room_id message_id emoji token = record {
  method = post;
  path =
      fixed (codes "/v1/chat/rooms/")
      ∷ component room_id
      ∷ fixed (codes "/messages/")
      ∷ component message_id
      ∷ fixed (codes "/reactions")
      ∷ [];
  headers = auth_headers token;
  body = json (field "emoji" emoji ∷ []);
  with_credentials = false;
}
