-- ===== src/Messages/Paging.antt =====
-- Loading older pages, and the window around a linked message.
-- (frontend/src/hooks/useMessages.ts)
use quiteline.Base.{
  Bool, true, false, not, ◌||◌, List, [], ◌∷◌, ◌++◌, Option, none, some, ℤ, Str, str_eq, truthy,
  if◌then◌else◌, any, get_or,
}
use quiteline.Wire.{EncryptedMessage, Page, Reply, ok, auth_error, error}
use quiteline.Messages.Merge.{merge_message_pages}
use quiteline.Messages.State.{Hook, Options, Failure, auth_expired, request_error}

-- A request for a page: the room, the token, and the cursor or the message to look around.
pub data PageRequest : Type 0 where
  older_page : Str → Str → Str → PageRequest
  older_context : Str → Str → Str → PageRequest
  context_of : Str → Str → Str → PageRequest

-- The effect on a change of the room or the access token.
unfoldable pub reset : Hook → Hook
reset h = record h {
  older = [];
  has_more = false;
  is_loading_more = false;
  attachments = [];
  context = [];
  context_has_more = false;
  is_in_context_mode = false;
  highlighted_loader = [];
  cache = [];
}

-- A render brings the ref up to date.
unfoldable pub render : Hook → Hook
render h = record h { in_context_ref = h.is_in_context_mode }

-- The effect on a change of the history's `hasMore` or the number of older messages.
unfoldable pub sync_has_more : Option Page → Hook → Hook
sync_has_more history h = elim h.older [
  | [] ↦ record h { has_more = elim history [ none ↦ false | some p ↦ p.has_more ] }
  | m ∷ ms ↦ h
]

unfoldable pub exit_context_mode : Hook → Hook
exit_context_mode h = record h {
  context = [];
  context_has_more = false;
  is_in_context_mode = false;
  in_context_ref = false;
  highlighted_loader = [];
}

-- `contextMessages[0]?.createdAt`, or an empty text.
abbrev pub first_created_at : List EncryptedMessage → Str
first_created_at [] = []
first_created_at (m ∷ ms) = m.created_at

-- The guards after `!session || !activeRoomID`, and the request if they let it pass.
abbrev ask : Bool → PageRequest → Hook → Hook × Option PageRequest
ask blocked request h =
    if blocked then (h, none) else (record h { is_loading_more = true }, some request)

-- `loadMoreMessages` up to its request; `oldest` is `oldestPagedMessageAt` as it was seen.
unfoldable pub load_more : Options → Str → Hook → Hook → Hook × Option PageRequest
load_more o oldest seen h = elim o.session [
  | none ↦ (h, none)
  | some session ↦
      if seen.is_in_context_mode
      then ask
          (not (truthy o.active_room)
            || seen.is_loading_more
            || not seen.context_has_more
            || not (truthy (first_created_at seen.context)))
          (older_context o.active_room session.access_token (first_created_at seen.context)) h
      else ask
          (not (truthy o.active_room)
            || not (truthy oldest)
            || seen.is_loading_more
            || not seen.has_more)
          (older_page o.active_room session.access_token oldest) h
]

-- `t('roomError')` is a text of the interface.
module _ (parse_date : Str → Option ℤ) (room_error : Str) where
  -- `loadMoreMessages` after its request, in context mode.
  unfoldable pub context_page_loaded : Reply Page → Hook → Hook × Option Failure
  context_page_loaded (ok page) h = (
    record h {
      context = merge_message_pages parse_date page.messages h.context;
      context_has_more = page.has_more;
      is_loading_more = false;
    },
    none,
  )
  context_page_loaded auth_error h = (record h { is_loading_more = false }, some auth_expired)
  context_page_loaded (error e) h =
      (record h { is_loading_more = false }, some (request_error e room_error))

  -- `loadMoreMessages` after its request, in normal mode.
  unfoldable pub older_page_loaded : Reply Page → Hook → Hook × Option Failure
  older_page_loaded (ok page) h = (
    record h {
      older = merge_message_pages parse_date h.older page.messages;
      has_more = page.has_more;
      is_loading_more = false;
    },
    none,
  )
  older_page_loaded auth_error h = (record h { is_loading_more = false }, some auth_expired)
  older_page_loaded (error e) h =
      (record h { is_loading_more = false }, some (request_error e room_error))

  -- The end of `fetchContext`; `cancelled` says that the effect has been cleaned up since.
  unfoldable pub context_loaded : Bool → Reply Page → Hook → Hook × Option Failure
  context_loaded true (ok page) h = (h, none)
  context_loaded true auth_error h = (h, some auth_expired)
  context_loaded true (error e) h = (h, some (request_error e room_error))
  context_loaded false (ok page) h = (
    record h {
      context = page.messages;
      context_has_more = page.has_more;
      is_in_context_mode = true;
      in_context_ref = true;
      is_loading_more = false;
    },
    none,
  )
  context_loaded false auth_error h =
      (record h { highlighted_loader = []; is_loading_more = false }, some auth_expired)
  context_loaded false (error e) h = (
    record h { highlighted_loader = []; is_loading_more = false },
    some (request_error e room_error),
  )

-- `loaderKey`.
abbrev pub loader_key : Options → Str
loader_key o = o.active_room ++ (b':' ∷ get_or o.highlighted [])

-- The highlighted message's effect, up to its request; `paged` is `pagedMessages`.
unfoldable pub follow_highlight : Options → List EncryptedMessage → Hook → Hook × Option PageRequest
follow_highlight o paged h = elim o.session [
  | none ↦ (h, none)
  | some session ↦
      if not (truthy o.active_room)
        || not (truthy (get_or o.highlighted []))
        || h.is_loading_more
        || any (λ m. str_eq m.id (get_or o.highlighted [])) paged
        || any (λ m. str_eq m.id (get_or o.highlighted [])) h.context
        || str_eq h.highlighted_loader (loader_key o)
      then (h, none)
      else (
        record h { highlighted_loader = loader_key o; is_loading_more = true },
        some (context_of o.active_room (get_or o.highlighted []) session.access_token),
      )
]
