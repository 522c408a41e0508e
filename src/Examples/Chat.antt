-- ===== src/Examples/Chat.antt =====
-- The message hook.
use quiteline.Base.{
  inr, refl, inl, codes, [], ◌∷◌, ◌++◌, ◌≡◌, ◌≢◌, ◌↔◌, ◌||◌, Option, some, none, All, Str, true,
  false, map, keep, str_eq,
}
use quiteline.Js.OrderedMap.{get}
use quiteline.ById.{HasDistinctIds}
use quiteline.Wire.{EncryptedMessage, PlainMessage, sent}
use quiteline.Messages.State.{Hook}
use quiteline.Messages.Paging.{load_more}
use quiteline.Messages.Loading.{load_more_iff, MayLoad, is_some}
use quiteline.Messages.Display.{display_messages, drop_confirmed}
use quiteline.Messages.Shown.{display_messages_wf, IsShownFor}
use quiteline.Messages.Sending.{submit_message, draft_of, bubble, on_sent, MessageDraft}
use quiteline.Messages.Sent.{sent_life}
use quiteline.Messages.Decrypting.{
  entry, is_stale, start_decrypting, finish_decrypting, decrypt_one,
}
use quiteline.Messages.Cached.{finish_decrypting_complete}
use quiteline.Examples.Data.{clock, room, first, second, decrypted, hook, options, alice}

load_more_iff_example :
    ((load_more options (7 ∷ []) hook hook).1 ≢ none
      ↔ (options.session ≢ none) × MayLoad options (7 ∷ []) hook)
    × ((load_more options (7 ∷ []) hook hook).0 ≡ record hook {
      is_loading_more = hook.is_loading_more || is_some (load_more options (7 ∷ []) hook hook).1;
    })
load_more_iff_example = load_more_iff options (7 ∷ []) hook hook

abbrev loading : Hook
loading = record hook { is_loading_more = true }

display_messages_wf_example :
    HasDistinctIds (λ m. m.id) (display_messages clock options hook)
    × All (IsShownFor clock options hook) (display_messages clock options hook)
display_messages_wf_example = display_messages_wf clock options hook

abbrev plain_trim : Str → Str
plain_trim s = s

abbrev draft : MessageDraft
draft = record {
  client_id = codes "local-1";
  room_id = room;
  text = codes "hello";
  file = none;
  created_at = codes "t2";
  reply_to = none;
}

abbrev submitted : Hook
submitted = record hook {
  pending = hook.pending ++ bubble options alice draft ∷ [];
  message_text = [];
  selected_file = none;
  reply_target = none;
}

sent_life_example :
    (submitted.pending ≡ hook.pending ++ bubble options alice draft ∷ [])
    × ((on_sent draft.client_id second submitted).pending
        ≡ hook.pending
          ++ record (bubble options alice draft) { id = second.id; status = some sent } ∷ [])
    × ((drop_confirmed (record (on_sent draft.client_id second submitted) {
      decrypted = decrypted (codes "m2") 5 (codes "t2") ∷ [];
    })).pending
        ≡ (drop_confirmed
            (record hook { decrypted = decrypted (codes "m2") 5 (codes "t2") ∷ [] })).pending)
unfolding submit_message draft_of str_eq
sent_life_example =
    sent_life plain_trim options alice (codes "1") (codes "t2") hook submitted draft refl refl
      second (decrypted (codes "m2") 5 (codes "t2") ∷ []) (refl, tt) refl

abbrev decode : EncryptedMessage → Option PlainMessage
decode m = (decrypted m.id 1 (codes "t1")).body

-- A hook that has cached the first message, and not the second.
abbrev cached : Hook
cached = record hook { cache = (codes "m1", entry clock (some alice) decode first) ∷ [] }

finish_decrypting_complete_example :
    let h' =
      finish_decrypting clock
        (some alice)
        decode
        false
        (first ∷ second ∷ [])
        (keep (is_stale clock (some alice) cached.cache) (first ∷ second ∷ []))
        cached in
    (h'.decrypted ≡ map (decrypt_one clock (some alice) decode) (first ∷ second ∷ []))
    × (h'.is_decrypting ≡ false)
    × ((start_decrypting clock (some alice) (first ∷ second ∷ []) h').1 ≡ [])
    × ((start_decrypting clock (some alice) (first ∷ second ∷ []) h').0.decrypted
        ≡ map (decrypt_one clock (some alice) decode) (first ∷ second ∷ []))
unfolding str_eq get
finish_decrypting_complete_example =
    finish_decrypting_complete clock (some alice) decode (first ∷ second ∷ []) cached
      ((refl, tt), (tt, tt)) (inr refl, (inl refl, tt))
