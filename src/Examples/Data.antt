-- ===== src/Examples/Data.antt =====
-- Concrete clocks, messages and people.
use quiteline.Base.{[], ◌∷◌, Option, none, some, ℕ, ℤ, pos, Str, true, false, codes}
use quiteline.Wire.{Identity, AuthSession, EncryptedMessage, DecryptedMessage, light}
use quiteline.Messages.State.{Hook, Options}
use quiteline.Messages.Merge.{Sources}

-- A clock that reads a date by its first code unit.
abbrev pub clock : Str → Option ℤ
clock [] = none
clock (c ∷ s) = some (pos c)

abbrev pub room : Str
room = codes "r"

abbrev pub encrypted : Str → ℕ → Option Str → EncryptedMessage
encrypted id at edited = record {
  id = id;
  room_id = room;
  sender_id = codes "bob";
  ciphertext = codes "c";
  nonce = codes "n";
  algorithm = codes "AES-GCM";
  key_id = codes "k";
  created_at = at ∷ [];
  edited_at = edited;
  deleted_at = none;
  read_by = none;
  read_receipts = none;
  read = none;
  reactions = none;
}

-- One message, as it was sent and as it was edited, and an earlier one.
abbrev pub first : EncryptedMessage
first = encrypted (codes "m1") 7 none

abbrev pub first_edited : EncryptedMessage
first_edited = encrypted (codes "m1") 7 (some (9 ∷ []))

abbrev pub second : EncryptedMessage
second = encrypted (codes "m2") 5 none

abbrev pub alice : Identity
alice = record {
  user_id = codes "alice";
  display_name = codes "Alice";
  identity_public_key = codes "pk";
  created_at = 1 ∷ [];
  last_seen_at = 2 ∷ [];
}

abbrev pub alice_session : AuthSession
alice_session = record {
  access_token = codes "token";
  token_type = codes "Bearer";
  expires_at = 100;
  principal = record {
    client_id = codes "cl";
    user_id = codes "alice";
    session_id = some (codes "s1");
    username = codes "alice";
    display_name = codes "Alice";
    friend_code = none;
    theme = light;
    avatar_url = none;
    totp_enabled = false;
    scopes = [];
    expires = 100;
  };
}

abbrev pub options : Options
options = record {
  session = some alice_session;
  identity = some alice;
  active_room = room;
  active_secret = codes "secret";
  highlighted = some (codes "m9");
}

abbrev pub decrypted : Str → ℕ → Str → DecryptedMessage
decrypted id at sent_at = record {
  id = id;
  room_id = room;
  sender_id = codes "alice";
  body = some (record {
    text = codes "hi";
    sender_name = codes "Alice";
    sender_avatar_url = none;
    sent_at = sent_at;
    reply_to = none;
    system = none;
    attachment = none;
  });
  created_at = at ∷ [];
  edited_at = none;
  deleted_at = none;
  read_by = none;
  read_receipts = none;
  read = none;
  reactions = none;
  status = none;
  has_failed = none;
}

-- A hook that has loaded, with a message that waits.
abbrev pub hook : Hook
hook = record {
  live = first_edited ∷ [];
  pending = decrypted (codes "local-0") 8 (codes "t0") ∷ [];
  local_deleted = [];
  reply_target = none;
  edit_target = none;
  edit_text = [];
  delete_target = none;
  delete_for_everyone = false;
  selected_file = none;
  message_text = codes "hello";
  decrypted = decrypted (codes "m1") 7 (codes "t1") ∷ [];
  attachments = [];
  older = first ∷ [];
  has_more = true;
  is_loading_more = false;
  is_decrypting = false;
  context = second ∷ [];
  context_has_more = false;
  is_in_context_mode = false;
  in_context_ref = false;
  highlighted_loader = [];
  cache = [];
}

abbrev pub sources : Sources
sources = record {
  active_room = room;
  history = some (record { messages = second ∷ first ∷ []; has_more = true });
  attachment_history = some (first ∷ []);
  older = [];
  live = first_edited ∷ [];
  context = [];
  in_context_mode = false;
}
