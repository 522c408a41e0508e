-- ===== src/Messages/State.antt =====
-- The state of the message hook, and its surroundings. (frontend/src/hooks/useMessages.ts)
--
-- A handler is a closure: it reads React state as it was when it was made (`seen`), refs as they
-- are, and its setters change the state as it is (`h`).
use quiteline.Base.{Bool, List, Option, ℕ, Str}
use quiteline.Wire.{AuthSession, Identity, EncryptedMessage, DecryptedMessage}

pub record File : Type 0 where
  pub name : Str
  pub type : Str
  pub size : ℕ

-- `{ cacheKey, decrypted }`.
pub record CacheEntry : Type 0 where
  pub cache_key : Str
  pub decrypted : DecryptedMessage

pub record Hook : Type 0 where
  pub live : List EncryptedMessage
  pub pending : List DecryptedMessage
  pub local_deleted : List (Str × Bool)
  pub reply_target : Option DecryptedMessage
  pub edit_target : Option DecryptedMessage
  pub edit_text : Str
  pub delete_target : Option DecryptedMessage
  pub delete_for_everyone : Bool
  pub selected_file : Option File
  pub message_text : Str
  pub decrypted : List DecryptedMessage
  pub attachments : List DecryptedMessage
  pub older : List EncryptedMessage
  pub has_more : Bool
  pub is_loading_more : Bool
  pub is_decrypting : Bool
  pub context : List EncryptedMessage
  pub context_has_more : Bool
  pub is_in_context_mode : Bool
  -- The refs.
  pub in_context_ref : Bool
  pub highlighted_loader : Str
  pub cache : List (Str × CacheEntry)

-- The options of the hook.
pub record Options : Type 0 where
  pub session : Option AuthSession
  pub identity : Option Identity
  pub active_room : Str
  pub active_secret : Str
  pub highlighted : Option Str

-- What a failed request leads to: `handleAuthExpired`, or `handleRequestError` with the error's
-- message and the title.
pub data Failure : Type 0 where
  auth_expired : Failure
  request_error : Str → Str → Failure
