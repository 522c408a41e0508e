-- ===== src/Messages/Secrets.antt =====
-- Messages from their encoding to the list that shows them.
-- (frontend/src/hooks/useMessages.ts, frontend/src/lib/crypto.ts)
use quiteline.Base.{
  ◌≡◌, refl, Bool, ap, ◌∙◌, true, false, List, [], ◌∷◌, map, Option, none, some, ℕ, ℤ, Str, str_eq,
  truthy, All, ◌⊎◌, inl, inr, keep,
}
use quiteline.ById.{HasDistinctIds}
use quiteline.Wire.{PlainMessage, EncryptedMessage, DecryptedMessage, Identity}
use quiteline.Codec.RoundTrip.{base64_url_to_bytes-bytes_to_base64_url}
use quiteline.Codec.Cipher.{
  Platform, Outcome, got, threw, Payload, encode_plain_message, encrypt_message, import_room_key,
  decode_message_payload,
}
use quiteline.Codec.CipherRoundTrip.{IsWritten, AreBytes, IsSealed, decrypt_message-encrypt_message}
use quiteline.Messages.State.{Hook}
use quiteline.Messages.Decrypting.{decrypt_one, is_stale, finish_decrypting}
use quiteline.Messages.Cached.{IsTrueTo, finish_decrypting_complete}

abbrev pub value_of : Outcome PlainMessage → Option PlainMessage
value_of (got m) = some m
value_of (threw e) = none

-- What is shown of a message: its body, and whether decoding failed.
abbrev pub shown_of : DecryptedMessage → Option PlainMessage × Option Bool
shown_of d = (d.body, d.has_failed)

module _ {Key : Type 0} (p : Platform Key) (secret : Str) where
  -- The body of a message that is decoded with the active secret, none if that throws.
  unfoldable pub decode_body : EncryptedMessage → Option PlainMessage
  unfolding decode_message_payload
  decode_body msg =
      value_of (decode_message_payload p (some secret) msg.ciphertext msg.nonce msg.algorithm)

  abbrev pub Carries : EncryptedMessage → Payload → Type 0
  Carries msg q =
      (msg.ciphertext ≡ q.ciphertext) × (msg.nonce ≡ q.nonce) × (msg.algorithm ≡ q.algorithm)

  -- A message has been made of a plain one, by encodePlainMessage or, with the active secret and
  -- some nonce, by encryptMessage.
  abbrev pub IsMadeOf : EncryptedMessage → PlainMessage → Type 0
  IsMadeOf msg m =
      IsWritten p m
      × (Carries msg (encode_plain_message p m) × AreBytes p (p.stringify m)
          ⊎ (nonce : List ℕ) × Carries msg (encrypt_message p secret nonce m)
            × (truthy secret ≡ true)
            × IsSealed p nonce (import_room_key p secret) (p.encode_text (p.stringify m)))

  pub decode_body_made :
      (msg : EncryptedMessage) (m : PlainMessage) → IsMadeOf msg m → decode_body msg ≡ some m
  unfolding decode_body decode_message_payload encode_plain_message encrypt_message str_eq
  decode_body_made msg m (w, inl (c, b)) =
      rw (c.0, c.1, c.2)
        (rw (base64_url_to_bytes-bytes_to_base64_url (p.encode_text (p.stringify m)) b) (rw w refl))
  decode_body_made msg m (w, inr (nonce, c, t, s)) =
      rw (c.0, c.1, c.2)
        (rw t (ap value_of (decrypt_message-encrypt_message p secret secret nonce m w s refl)))

  module _ (parse_date : Str → Option ℤ) (me : Option Identity)
      (plain : EncryptedMessage → PlainMessage) where
    shown_made :
        (msg : EncryptedMessage)
        → IsMadeOf msg (plain msg)
        → shown_of (decrypt_one parse_date me decode_body msg) ≡ (some (plain msg), none)
    unfolding decrypt_one
    shown_made msg h =
        ap
          (λ (o : Option PlainMessage).
            (o, elim o as (λ x. Option Bool) [ none ↦ some true | some b ↦ none ]))
          (decode_body_made msg (plain msg) h)

    all_shown :
        (msgs : List EncryptedMessage)
        → All (λ msg. IsMadeOf msg (plain msg)) msgs
        → map shown_of (map (decrypt_one parse_date me decode_body) msgs)
          ≡ map (λ msg. (some (plain msg), none)) msgs
    all_shown [] h = refl
    all_shown (m ∷ ms) h = rw (shown_made m h.0) (rw (all_shown ms h.1) refl)

    -- If no id stands twice in the list, the cache holds what decoding gives, and every message of
    -- the list has been made of a plain one, by encodePlainMessage or with the active secret by
    -- encryptMessage, then the finished effect shows the plain ones in their order, none as failed.
    pub finish_decrypting-decode_body :
        (encrypted : List EncryptedMessage) (h : Hook)
        → HasDistinctIds (λ m. m.id) encrypted
        → All (IsTrueTo parse_date me decode_body h.cache) encrypted
        → All (λ msg. IsMadeOf msg (plain msg)) encrypted
        → map shown_of
            (finish_decrypting parse_date me decode_body false encrypted
              (keep (is_stale parse_date me h.cache) encrypted)
              h).decrypted
          ≡ map (λ msg. (some (plain msg), none)) encrypted
    finish_decrypting-decode_body encrypted h d c made =
        ap (map shown_of) (finish_decrypting_complete parse_date me decode_body encrypted h d c).0
        ∙ all_shown encrypted made
