-- ===== src/Examples/Ciphers.antt =====
-- Encrypted messages and files, on a platform with a cipher that only marks what it encrypts.
use quiteline.Base.{
  All, ◌≡◌, refl, codes, List, [], ◌∷◌, ◌==◌, Option, some, none, Str, ℕ, ◌↔◌, inl, inr, map, keep,
  if◌then◌else◌, str_eq, truthy, true, false, length, replicate, ◌%◌, arith, Bool-cases,
}
use quiteline.Js.OrderedMap.{get}
use quiteline.Wire.{ok, PlainMessage, EncryptedMessage}
use quiteline.Codec.RoundTrip.{IsByte}
use quiteline.Codec.Cipher.{
  Platform, got, octet_stream, encrypt_message, encode_plain_message, encrypt_file,
  decode_message_payload, decode_file_payload, import_room_key, digest_id, key_id,
}
use quiteline.Codec.CipherRoundTrip.{
  IsAuthentic, decode_message_payload-encrypt_message, decode_file_payload-encrypt_file,
  length-key_id,
}
use quiteline.Messages.Decrypting.{entry, finish_decrypting, is_stale}
use quiteline.Messages.Secrets.{decode_body, shown_of, finish_decrypting-decode_body}
use quiteline.Messages.State.{File, Hook}
use quiteline.Messages.Sending.{MessageDraft, bubble, local_attachment}
use quiteline.Messages.Transmit.{
  Uploaded, Server, attachment_of, upload, send_fn, send_fn-decode_body,
}
use quiteline.Examples.Data.{options, alice_session, room, clock, alice, encrypted, hook}

-- A message with a file that has been uploaded.
abbrev picture : File
picture = record { name = codes "cat"; type = codes "image/png"; size = 3 }

abbrev uploaded : Uploaded
uploaded = record { file_id = codes "f1"; size = 3 }

abbrev hello : PlainMessage
hello = record {
  text = codes "hello";
  sender_name = codes "Alice";
  sender_avatar_url = none;
  sent_at = codes "t";
  reply_to = none;
  system = none;
  attachment = some (attachment_of picture uploaded);
}

abbrev parse_text : Str → Option PlainMessage
parse_text s = some (record hello { text = s })

abbrev first_byte : List ℕ → ℕ
first_byte [] = 0
first_byte (b ∷ bs) = b

abbrev open_marked : ℕ → List ℕ → Option (List ℕ)
open_marked k [] = none
open_marked k (b ∷ bs) = if b == k then some bs else none

-- The key of a secret is the length of the secret, and the first byte of what it encrypts.
abbrev toy : Platform ℕ
toy = record {
  encode_text = λ s. s;
  decode_text = λ bytes. bytes;
  stringify = λ m. m.text;
  parse = parse_text;
  digest = λ bytes. replicate 32 (length bytes % 256);
  import_key = first_byte;
  encrypt = λ iv k bytes. k ∷ bytes;
  decrypt = λ iv k bytes. open_marked k bytes;
  blob_type = λ t. t;
}

abbrev key : Str
key = codes "key"

abbrev nonce : List ℕ
nonce = 1 ∷ 2 ∷ 255 ∷ []

nonce_bytes : All IsByte nonce
nonce_bytes = (omega arith, (omega arith, (omega arith, tt)))

hello_bytes : All IsByte (codes "hello")
hello_bytes = (omega arith, (omega arith, (omega arith, (omega arith, (omega arith, tt)))))

hello_marked : All IsByte (toy.encrypt nonce (import_room_key toy key) (codes "hello"))
unfolding import_room_key
hello_marked = (omega arith, hello_bytes)

toy-IsAuthentic : IsAuthentic toy nonce key (codes "hello")
unfolding import_room_key
toy-IsAuthentic t = elim (Bool-cases (3 == length t % 256)) [
  | inl e ↦ inr (ground (arith, e))
  | inr e ↦ inl (rw e refl)
]

decode_message_payload-encrypt_message_example :
    let q = encrypt_message toy key nonce hello in
    (decode_message_payload toy (some (codes "abc")) q.ciphertext q.nonce q.algorithm ≡ got hello)
    ↔ ((t : Str) × (some (codes "abc") ≡ some t)
        × (truthy t ≡ true)
        × (import_room_key toy t ≡ import_room_key toy key))
unfolding import_room_key
decode_message_payload-encrypt_message_example =
    decode_message_payload-encrypt_message toy key nonce hello (some (codes "abc")) refl
      (nonce_bytes, hello_marked, refl) toy-IsAuthentic

decode_file_payload-encrypt_file_example :
    let q = encrypt_file toy key nonce (0 ∷ 200 ∷ []) in
    decode_file_payload toy (some key) q.blob q.nonce [] q.algorithm
    ≡ got (record { bytes = 0 ∷ 200 ∷ []; type = octet_stream })
unfolding import_room_key
decode_file_payload-encrypt_file_example =
    decode_file_payload-encrypt_file toy key nonce (0 ∷ 200 ∷ []) [] refl
      (nonce_bytes, (omega arith, (omega arith, (omega arith, tt))), refl)

length-key_id_example : (length (digest_id toy key) ≡ 22) × (length (key_id toy key) ≡ 16)
length-key_id_example = length-key_id toy key refl

-- One message that is encrypted, and one that is only encoded.
abbrev secret_message : EncryptedMessage
secret_message =
    let q = encrypt_message toy key nonce hello in
    record (encrypted (codes "m1") 7 none) {
      ciphertext = q.ciphertext;
      nonce = q.nonce;
      algorithm = q.algorithm;
      key_id = q.key_id;
    }

abbrev open_message : EncryptedMessage
open_message =
    let q = encode_plain_message toy hello in
    record (encrypted (codes "m2") 5 none) {
      ciphertext = q.ciphertext;
      nonce = q.nonce;
      algorithm = q.algorithm;
      key_id = q.key_id;
    }

abbrev both : List EncryptedMessage
both = secret_message ∷ open_message ∷ []

-- A hook that has cached the encrypted message, and not the other.
abbrev cached : Hook
cached = record hook {
  cache = (codes "m1", entry clock (some alice) (decode_body toy key) secret_message) ∷ [];
}

finish_decrypting-decode_body_example :
    map shown_of
      (finish_decrypting clock
        (some alice)
        (decode_body toy key)
        false
        both
        (keep (is_stale clock (some alice) cached.cache) both)
        cached).decrypted
    ≡ map (λ msg. (some hello, none)) both
unfolding str_eq get import_room_key
finish_decrypting-decode_body_example =
    finish_decrypting-decode_body toy key clock (some alice) (λ m. hello) both cached
      ((refl, tt), (tt, tt)) (inr refl, (inl refl, tt))
      (
        (refl, inr (nonce, (refl, refl, refl), refl, (nonce_bytes, hello_marked, refl))),
        ((refl, inl ((refl, refl, refl), hello_bytes)), tt),
      )

abbrev draft : MessageDraft
draft = record {
  client_id = codes "local-1";
  room_id = room;
  text = codes "hello";
  file = some picture;
  created_at = codes "t";
  reply_to = none;
}

abbrev content : File → List ℕ
content f = 1 ∷ 2 ∷ 3 ∷ []

abbrev server : Server
server = record { take_file = λ r. ok uploaded; take_message = λ r. ok open_message }

send_fn-decode_body_example :
    (send_fn toy content server options draft ≡ ok open_message)
    × (decode_body toy (codes "any") open_message ≡ some hello)
    × ((bubble options alice draft).body
        ≡ some (record hello { attachment = some (local_attachment picture) }))
unfolding upload
send_fn-decode_body_example =
    send_fn-decode_body toy content server options draft alice alice_session
      (some (attachment_of picture uploaded)) open_message (codes "any") refl refl refl refl
      (refl, refl, refl) refl hello_bytes
