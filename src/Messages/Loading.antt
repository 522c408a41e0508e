-- ===== src/Messages/Loading.antt =====
-- When pages are asked for, and what their replies change. (frontend/src/hooks/useMessages.ts)
use quiteline.Base.{
  ◌≡◌, ◌≢◌, ◌↔◌, Bool, true, false, ◌||◌, List, Option, none, some, ℤ, Str, truthy, arith, ◌⊎◌,
}
use quiteline.ById.{find, HasDistinctIds}
use quiteline.ById.Union.{first_of_two}
use quiteline.Wire.{EncryptedMessage, Page, Reply, ok, auth_error, error}
use quiteline.Messages.Pages.{find-merge_message_pages}
use quiteline.Messages.State.{Hook, Options}
use quiteline.Messages.Paging.{
  load_more, older_page_loaded, context_page_loaded, context_loaded, follow_highlight,
  first_created_at,
}

-- The conditions under which `loadMoreMessages` asks for a page, in each of its two modes.
pub record MayLoad (o : Options) (oldest : Str) (seen : Hook) : Type 0 where
  pub in_room : truthy o.active_room ≡ true
  pub idle : seen.is_loading_more ≡ false
  pub wanted :
      (seen.is_in_context_mode ≡ true)
        × (seen.context_has_more ≡ true)
        × (truthy (first_created_at seen.context) ≡ true)
      ⊎ (seen.is_in_context_mode ≡ false) × (seen.has_more ≡ true) × (truthy oldest ≡ true)

abbrev pub is_some : {A : Type 0} → Option A → Bool
is_some none = false
is_some (some a) = true

-- A page is asked for exactly if there are a session, a room, a cursor and more to load, and no
-- page is seen on its way; and all that the call changes is that asking raises the flag.
pub load_more_iff :
    (o : Options) (oldest : Str) (seen h : Hook)
    → ((load_more o oldest seen h).1 ≢ none ↔ (o.session ≢ none) × MayLoad o oldest seen)
      × ((load_more o oldest seen h).0 ≡ record h {
        is_loading_more = h.is_loading_more || is_some (load_more o oldest seen h).1;
      })
unfolding load_more
load_more_iff o oldest seen h = ground arith

module _ (parse_date : Str → Option ℤ) (room_error : Str) where
  -- Whatever the reply to a request of normal mode, the flag goes down, and the context window and
  -- the mode stay; and so do the older messages, unless no failure is reported.
  pub older_page_loaded_ends :
      (reply : Reply Page) (h : Hook)
      → let (h', failure) = older_page_loaded parse_date room_error reply h in
        (h'.is_loading_more ≡ false)
        × (h'.context ≡ h.context)
        × (h'.is_in_context_mode ≡ h.is_in_context_mode)
        × ((failure ≡ none) ⊎ (h'.older ≡ h.older) × (h'.has_more ≡ h.has_more))
  unfolding older_page_loaded
  older_page_loaded_ends (ok page) h = ground arith
  older_page_loaded_ends auth_error h = ground arith
  older_page_loaded_ends (error x) h = ground arith

  -- A page that arrives in normal mode joins the older messages: neither list having repeated ids,
  -- each id has its older message if there is one, and otherwise the page's.
  pub find-older_page_loaded :
      (page : Page) (h : Hook) (k : Str)
      → HasDistinctIds (λ m. m.id) h.older
      → HasDistinctIds (λ m. m.id) page.messages
      → find (λ m. m.id) k (older_page_loaded parse_date room_error (ok page) h).0.older
        ≡ first_of_two (find (λ m. m.id) k h.older) (find (λ m. m.id) k page.messages)
  unfolding older_page_loaded
  find-older_page_loaded page h k d q =
      find-merge_message_pages parse_date h.older page.messages k d q

  -- In context mode it joins the context window, and the page's state of a message wins.
  pub find-context_page_loaded :
      (page : Page) (h : Hook) (k : Str)
      → HasDistinctIds (λ m. m.id) h.context
      → HasDistinctIds (λ m. m.id) page.messages
      → find (λ m. m.id) k (context_page_loaded parse_date room_error (ok page) h).0.context
        ≡ first_of_two (find (λ m. m.id) k page.messages) (find (λ m. m.id) k h.context)
  unfolding context_page_loaded
  find-context_page_loaded page h k d q =
      find-merge_message_pages parse_date page.messages h.context k q d

  -- If the fetch of a context window has been cancelled while the flag was up, then whatever its
  -- reply is, nothing lets a page be asked for again: the reply changes nothing, and neither
  -- `loadMoreMessages` nor the effect that follows a linked message makes a request or lowers the
  -- flag.
  pub cancelled_context_blocks :
      (o : Options) (oldest : Str) (paged : List EncryptedMessage) (reply : Reply Page) (h : Hook)
      → h.is_loading_more ≡ true
      → let h' = (context_loaded parse_date room_error true reply h).0 in
        (h' ≡ h)
        × (load_more o oldest h' h' ≡ (h', none))
        × (follow_highlight o paged h' ≡ (h', none))
  unfolding context_loaded load_more follow_highlight
  cancelled_context_blocks o oldest paged (ok page) h e = ground arith
  cancelled_context_blocks o oldest paged auth_error h e = ground arith
  cancelled_context_blocks o oldest paged (error x) h e = ground arith
