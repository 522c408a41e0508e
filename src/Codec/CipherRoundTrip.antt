-- ===== src/Codec/CipherRoundTrip.antt =====
-- What is encrypted or encoded, read again. (frontend/src/lib/crypto.ts)
use quiteline.Base.{
  ◌≡◌, ◌≢◌, refl, sym, ap, ◌∙◌, true, List, [], ◌∷◌, map, Option, none, some, ℕ, zero, suc, ◌+◌,
  ◌*◌, ◌/◌, ◌≤◌, Str, str_eq, truthy, or_else, length, take, All, arith, ◌⊎◌, inl, inr, ◌↔◌,
}
use quiteline.Wire.{PlainMessage}
use quiteline.Codec.Base64.{sextets, bytes_to_base64_url}
use quiteline.Codec.RoundTrip.{IsByte, url6, written, base64_url_to_bytes-bytes_to_base64_url}
use quiteline.Codec.Cipher.{
  Platform, Fault, room_secret_required, operation_error, syntax_error, got, threw, and_then,
  or_throw, octet_stream, digest_id, key_id, import_room_key, encrypt_message, decrypt_message,
  decode_message_payload, encrypt_file, decrypt_file, decode_file_payload,
}

threw_not_got : (f : Fault) (m : PlainMessage) → threw f ≢ got m
threw_not_got f m e = cc

module _ {Key : Type 0} (p : Platform Key) where
  -- A message comes back from its JSON in UTF-8.
  abbrev pub IsWritten : PlainMessage → Type 0
  IsWritten m = p.parse (p.decode_text (p.encode_text (p.stringify m))) ≡ some m

  -- The bytes of a text are bytes.
  abbrev pub AreBytes : Str → Type 0
  AreBytes s = All IsByte (p.encode_text s)

  -- What is encrypted with a key is bytes, and that key gives it back.
  abbrev pub IsSealed : List ℕ → Key → List ℕ → Type 0
  IsSealed nonce k plain =
      All IsByte nonce
      × All IsByte (p.encrypt nonce k plain)
      × (p.decrypt nonce k (p.encrypt nonce k plain) ≡ some plain)

  -- What a key other than the one of the secret opens.
  abbrev pub IsAuthentic : List ℕ → Str → List ℕ → Type 0
  IsAuthentic nonce s plain =
      (t : Str)
      → (p.decrypt nonce (import_room_key p t) (p.encrypt nonce (import_room_key p s) plain) ≡ none)
        ⊎ (import_room_key p t ≡ import_room_key p s)

  decrypt_message-encrypt :
      (s t : Str) (nonce plain : List ℕ)
      → IsSealed nonce (import_room_key p s) plain
      → decrypt_message p t
          (bytes_to_base64_url (p.encrypt nonce (import_room_key p s) plain))
          (bytes_to_base64_url nonce)
        ≡ and_then
            (or_throw operation_error
              (p.decrypt nonce (import_room_key p t) (p.encrypt nonce (import_room_key p s) plain)))
            (λ bytes. or_throw syntax_error (p.parse (p.decode_text bytes)))
  unfolding decrypt_message
  decrypt_message-encrypt s t nonce plain h =
      rw
        (
          base64_url_to_bytes-bytes_to_base64_url nonce h.0,
          base64_url_to_bytes-bytes_to_base64_url (p.encrypt nonce (import_room_key p s) plain) h.1,
        )
        refl

  pub decrypt_message-encrypt_message :
      (s t : Str) (nonce : List ℕ) (m : PlainMessage)
      → IsWritten m
      → IsSealed nonce (import_room_key p s) (p.encode_text (p.stringify m))
      → import_room_key p t ≡ import_room_key p s
      → decrypt_message p t
          (encrypt_message p s nonce m).ciphertext
          (encrypt_message p s nonce m).nonce
        ≡ got m
  unfolding encrypt_message
  decrypt_message-encrypt_message s t nonce m w h e =
      decrypt_message-encrypt s t nonce (p.encode_text (p.stringify m)) h
      ∙ rw e (rw h.2 (rw w refl))

  -- If a message comes back from its JSON, its bytes and the nonce are encrypted as bytes, and
  -- decryption gives them back with the key of the secret and fails with any other key, then what
  -- encryptMessage makes is decoded with the secrets that have the same key, and with no others.
  pub decode_message_payload-encrypt_message :
      (s : Str) (nonce : List ℕ) (m : PlainMessage) (secret : Option Str)
      → IsWritten m
      → IsSealed nonce (import_room_key p s) (p.encode_text (p.stringify m))
      → IsAuthentic nonce s (p.encode_text (p.stringify m))
      → let q = encrypt_message p s nonce m in
        (decode_message_payload p secret q.ciphertext q.nonce q.algorithm ≡ got m) ↔ (
          (t : Str) × (secret ≡ some t)
          × (truthy t ≡ true)
          × (import_room_key p t ≡ import_room_key p s))
  unfolding decode_message_payload encrypt_message str_eq
  decode_message_payload-encrypt_message s nonce m none w h a =
      (λ e. absurd (threw_not_got room_secret_required m e), λ r. ground (arith, r.1))
  decode_message_payload-encrypt_message s nonce m (some []) w h a =
      (λ e. absurd (threw_not_got room_secret_required m e), λ r. ground (arith, r.1, r.2))
  decode_message_payload-encrypt_message s nonce m (some (c ∷ t)) w h a = (
    λ e. elim (a (c ∷ t)) [
      | inl bad ↦ absurd (
          threw_not_got operation_error m (
            sym (
              decrypt_message-encrypt s (c ∷ t) nonce (p.encode_text (p.stringify m)) h
              ∙ rw bad refl)
            ∙ e))
      | inr same ↦ (c ∷ t, refl, refl, same)
    ],
    λ r. decrypt_message-encrypt_message s (c ∷ t) nonce m w h (ground (arith, r.1, r.3)),
  )

  -- If the nonce and the encrypted file are bytes, and decryption with the secret's key gives the
  -- file back, then what encryptFile makes is decoded, with the same secret, as the file, under the
  -- type that is asked for.
  pub decode_file_payload-encrypt_file :
      (s : Str) (nonce file : List ℕ) (type : Str)
      → truthy s ≡ true
      → IsSealed nonce (import_room_key p s) file
      → let q = encrypt_file p s nonce file in
        decode_file_payload p (some s) q.blob q.nonce type q.algorithm
        ≡ got (record { bytes = file; type = p.blob_type (or_else type octet_stream) })
  unfolding decode_file_payload encrypt_file decrypt_file str_eq
  decode_file_payload-encrypt_file s nonce file type t h =
      rw t (rw (base64_url_to_bytes-bytes_to_base64_url nonce h.0) (rw h.2 refl))

length-sextets_of : (bs : List ℕ) → length (sextets bs) ≡ (4 * length bs + 2) / 3
unfolding sextets
length-sextets_of [] = refl
length-sextets_of (a ∷ []) = refl
length-sextets_of (a ∷ b ∷ []) = refl
length-sextets_of (a ∷ b ∷ c ∷ r) = omega (arith, length-sextets_of r)

length-map_of : (f : ℕ → ℕ) (xs : List ℕ) → length (map f xs) ≡ length xs
length-map_of f [] = refl
length-map_of f (x ∷ xs) = ap suc (length-map_of f xs)

length-bytes_to_base64_url :
    (bs : List ℕ) → length (bytes_to_base64_url bs) ≡ (4 * length bs + 2) / 3
length-bytes_to_base64_url bs =
    rw (written bs) (length-map_of url6 (sextets bs) ∙ length-sextets_of bs)

length-taken : (n : ℕ) (s : Str) → n ≤ length s → length (take n s) ≡ n
length-taken zero s h = refl
length-taken (suc n) [] h = omega arith
length-taken (suc n) (c ∷ s) h = ap suc (length-taken n s (omega arith))

-- If digests are 32 bytes long, as those of SHA-256 are, then every identifier has 22 characters,
-- and every key's has 16.
pub length-key_id :
    {Key : Type 0} (p : Platform Key) (value : Str)
    → length (p.digest (p.encode_text value)) ≡ 32
    → (length (digest_id p value) ≡ 22) × (length (key_id p value) ≡ 16)
unfolding digest_id key_id
length-key_id p value h =
    let long = length-bytes_to_base64_url (p.digest (p.encode_text value)) in
    let whole =
      length-taken 22 (bytes_to_base64_url (p.digest (p.encode_text value)))
        (omega (arith, long, h)) in
    (whole, length-taken 16 (digest_id p value) (omega (arith, whole)))
