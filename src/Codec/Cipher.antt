-- ===== src/Codec/Cipher.antt =====
-- Messages and files that are encrypted, or only encoded. (frontend/src/lib/crypto.ts)
use quiteline.Base.{
  List, [], Option, none, some, ℕ, Str, str_eq, truthy, codes, or_else, take, if◌then◌else◌,
}
use quiteline.Wire.{PlainMessage}
use quiteline.Codec.Base64.{bytes_to_base64_url, base64_url_to_bytes}

-- What the browser does: `TextEncoder`, `TextDecoder`, `JSON` on messages, `crypto.subtle` with
-- SHA-256 and AES-GCM, and the type that a `Blob` makes of the one that it is given. Decryption
-- gives none for an OperationError, parsing for a SyntaxError.
pub record Platform (Key : Type 0) : Type 0 where
  pub encode_text : Str → List ℕ
  pub decode_text : List ℕ → Str
  pub stringify : PlainMessage → Str
  pub parse : Str → Option PlainMessage
  pub digest : List ℕ → List ℕ
  pub import_key : List ℕ → Key
  pub encrypt : List ℕ → Key → List ℕ → List ℕ
  pub decrypt : List ℕ → Key → List ℕ → Option (List ℕ)
  pub blob_type : Str → Str

-- What the functions throw: their own error, that of `atob`, and the browser's.
pub data Fault : Type 0 where
  room_secret_required invalid_character operation_error syntax_error : Fault

pub data Outcome {ℓ} (A : Type ℓ) : Type ℓ where
  got : A → Outcome A
  threw : Fault → Outcome A

abbrev pub and_then : {A B : Type 0} → Outcome A → (A → Outcome B) → Outcome B
and_then (got a) f = f a
and_then (threw e) f = threw e

abbrev pub or_throw : {A : Type 0} → Fault → Option A → Outcome A
or_throw e none = threw e
or_throw e (some a) = got a

pub record Payload : Type 0 where
  pub ciphertext : Str
  pub nonce : Str
  pub algorithm : Str
  pub key_id : Str

pub record Blob : Type 0 where
  pub bytes : List ℕ
  pub type : Str

pub record FilePayload : Type 0 where
  pub blob : Blob
  pub nonce : Str
  pub algorithm : Str

pub record LocalIdentity (Jwk : Type 0) : Type 0 where
  pub user_id : Str
  pub display_name : Str
  pub identity_public_key : Str
  pub identity_private_key : Jwk

abbrev pub plain_message_algorithm : Str
plain_message_algorithm = codes "PLAIN-JSON-V1"

abbrev pub plain_file_algorithm : Str
plain_file_algorithm = codes "PLAIN-FILE-V1"

abbrev pub cipher_algorithm : Str
cipher_algorithm = codes "AES-GCM-256"

abbrev pub octet_stream : Str
octet_stream = codes "application/octet-stream"

-- `createRoomSecret`, given the 32 random bytes.
unfoldable pub create_room_secret : List ℕ → Str
unfolding bytes_to_base64_url
create_room_secret bytes = bytes_to_base64_url bytes

module _ {Key : Type 0} (p : Platform Key) where
  unfoldable pub digest_id : Str → Str
  unfolding bytes_to_base64_url
  digest_id value = take 22 (bytes_to_base64_url (p.digest (p.encode_text value)))

  unfoldable pub key_id : Str → Str
  unfolding digest_id
  key_id room_secret = take 16 (digest_id room_secret)

  -- `toBase64URL`.
  unfoldable pub to_base64_url : Str → Str
  unfolding bytes_to_base64_url
  to_base64_url value = bytes_to_base64_url (p.encode_text value)

  -- `createLocalIdentity`, given the pair of keys as JWK, and `JSON.stringify` on the public one.
  unfoldable pub create_local_identity : {Jwk : Type 0} → Str → Str → Jwk → LocalIdentity Jwk
  unfolding digest_id to_base64_url
  create_local_identity display_name public_jwk private_jwk = record {
    user_id = digest_id (to_base64_url public_jwk);
    display_name = display_name;
    identity_public_key = to_base64_url public_jwk;
    identity_private_key = private_jwk;
  }

  unfoldable pub import_room_key : Str → Key
  import_room_key room_secret = p.import_key (p.digest (p.encode_text room_secret))

  -- `encryptMessage`, given the 12 random bytes of the nonce.
  unfoldable pub encrypt_message : Str → List ℕ → PlainMessage → Payload
  unfolding import_room_key key_id bytes_to_base64_url
  encrypt_message room_secret nonce message = record {
    ciphertext =
        bytes_to_base64_url
          (p.encrypt nonce (import_room_key room_secret) (p.encode_text (p.stringify message)));
    nonce = bytes_to_base64_url nonce;
    algorithm = cipher_algorithm;
    key_id = key_id room_secret;
  }

  unfoldable pub encode_plain_message : PlainMessage → Payload
  unfolding bytes_to_base64_url
  encode_plain_message message = record {
    ciphertext = bytes_to_base64_url (p.encode_text (p.stringify message));
    nonce = [];
    algorithm = plain_message_algorithm;
    key_id = codes "plain";
  }

  -- `base64URLToBytes`, with its error.
  abbrev pub read_bytes : Str → Outcome (List ℕ)
  read_bytes value = or_throw invalid_character (base64_url_to_bytes value)

  -- `JSON.parse(decoder.decode(…))`.
  abbrev pub read_message : List ℕ → Outcome PlainMessage
  read_message bytes = or_throw syntax_error (p.parse (p.decode_text bytes))

  unfoldable pub decrypt_message : Str → Str → Str → Outcome PlainMessage
  unfolding import_room_key base64_url_to_bytes
  decrypt_message room_secret ciphertext nonce = and_then (read_bytes nonce) (λ iv.
      and_then (read_bytes ciphertext) (λ bytes.
        and_then (or_throw operation_error (p.decrypt iv (import_room_key room_secret) bytes))
          read_message))

  unfoldable pub decode_message_payload : Option Str → Str → Str → Str → Outcome PlainMessage
  unfolding decrypt_message base64_url_to_bytes
  decode_message_payload room_secret ciphertext nonce algorithm =
      if str_eq algorithm plain_message_algorithm
      then and_then (read_bytes ciphertext) read_message
      else elim room_secret [
        | none ↦ threw room_secret_required
        | some secret ↦
            if truthy secret
            then decrypt_message secret ciphertext nonce
            else threw room_secret_required
      ]

  -- `encryptFile`, given the random nonce and the bytes of the file.
  unfoldable pub encrypt_file : Str → List ℕ → List ℕ → FilePayload
  unfolding import_room_key bytes_to_base64_url
  encrypt_file room_secret nonce file = record {
    blob = record {
      bytes = p.encrypt nonce (import_room_key room_secret) file;
      type = p.blob_type octet_stream;
    };
    nonce = bytes_to_base64_url nonce;
    algorithm = cipher_algorithm;
  }

  unfoldable pub decrypt_file : Str → Blob → Str → Str → Outcome Blob
  unfolding import_room_key base64_url_to_bytes
  decrypt_file room_secret encrypted nonce type = and_then (read_bytes nonce) (λ iv.
      and_then
        (or_throw operation_error (p.decrypt iv (import_room_key room_secret) encrypted.bytes))
        (λ plain. got (record { bytes = plain; type = p.blob_type (or_else type octet_stream) })))

  unfoldable pub decode_file_payload : Option Str → Blob → Str → Str → Str → Outcome Blob
  unfolding decrypt_file
  decode_file_payload room_secret encrypted nonce type algorithm =
      if str_eq algorithm plain_file_algorithm
      then got (record encrypted { type = p.blob_type (or_else type octet_stream) })
      else elim room_secret [
        | none ↦ threw room_secret_required
        | some secret ↦
            if truthy secret
            then decrypt_file secret encrypted nonce type
            else threw room_secret_required
      ]
