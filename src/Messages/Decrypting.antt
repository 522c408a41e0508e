-- ===== src/Messages/Decrypting.antt =====
-- The effect that decrypts the message list, with its cache. (frontend/src/hooks/useMessages.ts)
use quiteline.Base.{
  Bool, true, false, not, List, [], ◌∷◌, ◌++◌, Option, none, some, ℤ, Str, str_eq, if◌then◌else◌,
  get_or, keep, codes,
}
use quiteline.Js.Decimal.{show_num}
use quiteline.Js.OrderedMap.{get, set}
use quiteline.Wire.{Identity, EncryptedMessage, DecryptedMessage, PlainMessage, Status, sent, seen}
use quiteline.Messages.Version.{message_version, reaction_signature, is_read}
use quiteline.Messages.State.{Hook, CacheEntry}

-- The cached results of the messages, in their order.
unfoldable pub collect : List EncryptedMessage → List (Str × CacheEntry) → List DecryptedMessage
collect [] cache = []
collect (msg ∷ msgs) cache = elim (get msg.id cache) [
  | none ↦ collect msgs cache
  | some e ↦ e.decrypted ∷ collect msgs cache
]

module _ (parse_date : Str → Option ℤ) (me : Option Identity) where
  -- `${identity?.userId}`.
  abbrev my_id : Str
  my_id = elim me [ none ↦ codes "undefined" | some i ↦ i.user_id ]

  unfoldable pub cache_key : EncryptedMessage → Str
  cache_key msg =
      show_num (message_version parse_date msg)
      ++ (b':'
          ∷ (reaction_signature msg.reactions
              ++ (b':' ∷ (if is_read msg then b'1' else b'0') ∷ b':' ∷ my_id)))

  abbrev pub own_status : EncryptedMessage → Option Status
  own_status msg = elim me [
    | none ↦ none
    | some i ↦
        if str_eq msg.sender_id i.user_id then some (if is_read msg then seen else sent) else none
  ]

  abbrev pub is_stale : List (Str × CacheEntry) → EncryptedMessage → Bool
  is_stale cache msg = elim (get msg.id cache) [
    | none ↦ true
    | some e ↦ not (str_eq e.cache_key (cache_key msg))
  ]

  -- The effect up to its first wait: the new state, and the messages that are being decrypted.
  unfoldable pub start_decrypting : List EncryptedMessage → Hook → Hook × List EncryptedMessage
  unfolding collect cache_key
  start_decrypting [] h = (record h { decrypted = []; is_decrypting = false }, [])
  start_decrypting (m ∷ ms) h = elim (keep (is_stale h.cache) (m ∷ ms)) [
    | [] ↦ (record h { decrypted = collect (m ∷ ms) h.cache; is_decrypting = false }, [])
    | w ∷ ws ↦ (elim h.cache [ [] ↦ record h { is_decrypting = true } | e ∷ es ↦ h ], w ∷ ws)
  ]

  -- `decode` is `decodeMessagePayload` of a message, with the room's secret: `none` if it throws.
  module _ (decode : EncryptedMessage → Option PlainMessage) where
    -- One message, decoded or marked as failed.
    unfoldable pub decrypt_one : EncryptedMessage → DecryptedMessage
    decrypt_one msg = record {
      id = msg.id;
      room_id = msg.room_id;
      sender_id = msg.sender_id;
      body = decode msg;
      created_at = msg.created_at;
      edited_at = msg.edited_at;
      deleted_at = msg.deleted_at;
      read_by = some (get_or msg.read_by []);
      read_receipts = some (get_or msg.read_receipts []);
      read = some (is_read msg);
      reactions = some (get_or msg.reactions []);
      status = own_status msg;
      has_failed = elim (decode msg) [ none ↦ some true | some b ↦ none ];
    }

    abbrev pub entry : EncryptedMessage → CacheEntry
    entry msg = record { cache_key = cache_key msg; decrypted = decrypt_one msg }

    unfoldable pub store : List EncryptedMessage → List (Str × CacheEntry) → List (Str × CacheEntry)
    unfolding cache_key decrypt_one
    store [] cache = cache
    store (msg ∷ msgs) cache = store msgs (set msg.id (entry msg) cache)

    -- The rest of it, unless it has been cancelled: `work` is what was being decrypted.
    unfoldable pub finish_decrypting :
        Bool → List EncryptedMessage → List EncryptedMessage → Hook → Hook
    unfolding store collect
    finish_decrypting true encrypted work h = h
    finish_decrypting false encrypted work h = record h {
      cache = store work h.cache;
      decrypted = collect encrypted (store work h.cache);
      is_decrypting = false;
    }
