-- ===== src/View/Scroll.antt =====
-- The list of messages as it scrolls: what is new, and what is unread.
-- (frontend/src/components/chat/ChatView.tsx)
use quiteline.Base.{
  Bool, true, false, not, ◌&&◌, ◌||◌, List, [], ◌∷◌, ◌++◌, map, Option, none, some, ℕ, ◌+◌, ◌-◌,
  ltb, leb, ℤ, pos, negsuc, pos_part, neg_part, if◌then◌else◌, Str, str_eq, truthy, any, keep,
  length, ◌==◌,
}
use quiteline.Wire.{DecryptedMessage}
use quiteline.Messages.Display.{sent_at}

-- The element that scrolls, in pixels.
pub record Viewport : Type 0 where
  pub scroll_height : ℕ
  pub scroll_top : ℤ
  pub client_height : ℕ

pub record Snapshot : Type 0 where
  pub height : ℕ
  pub top : ℤ
  pub count : ℕ

-- A timer of `scrollMessagesToBottom`: its delay, whether it scrolls smoothly, and for the last one
-- the room for which it tells that the list has settled.
pub record BottomTimer : Type 0 where
  pub delay : ℕ
  pub smooth : Bool
  pub settles : Option Str

pub record Scroll : Type 0 where
  pub unread_count : ℕ
  pub show_scroll_btn : Bool
  pub new_message_ids : List Str
  pub is_near_bottom : Bool
  pub previous_message_ids : List Str
  pub initialized_room : Str
  pub loading_history : Bool
  pub history_pagination_enabled : Bool
  pub snapshot : Option Snapshot
  pub pagination_armed : Bool
  pub last_scroll_top : ℤ
  pub suppress_pagination_until : ℕ
  pub last_history_load_at : ℕ
  pub animated_sent_ats : List Str
  pub bottom_timers : List BottomTimer
  -- The ids that each timer takes from `new_message_ids`.
  pub new_msg_timers : List (List Str)
  -- When `loadMoreMessages` has been called, the last time first.
  pub loads : List ℕ

-- What the view is rendered with.
pub record Shown : Type 0 where
  pub active_room : Str
  pub highlighted : Str
  -- `identity.userId`.
  pub me : Str
  pub visible : List DecryptedMessage
  pub has_more : Bool
  pub is_loading_more : Bool

-- `a - b`.
abbrev pub minus : ℕ → ℕ → ℤ
minus a b = if leb b a then pos (a - b) else negsuc (b - a - 1)

-- `el.scrollHeight - el.scrollTop - el.clientHeight < 80`.
abbrev pub is_viewport_near_bottom : Viewport → Bool
is_viewport_near_bottom el =
    ltb (el.scroll_height + neg_part el.scroll_top) (80 + el.client_height + pos_part el.scroll_top)

-- Sets of texts, in the order of insertion.
abbrev pub has : Str → List Str → Bool
has k xs = any (λ x. str_eq x k) xs

abbrev pub add : Str → List Str → List Str
add k xs = if has k xs then xs else xs ++ k ∷ []

abbrev pub add_all : List Str → List Str → List Str
add_all [] xs = xs
add_all (k ∷ ks) xs = add_all ks (add k xs)

abbrev pub remove_all : List Str → List Str → List Str
remove_all ks xs = keep (λ x. not (has x ks)) xs

abbrev pub last_of {ℓ} : {A : Type ℓ} → List A → Option A
last_of [] = none
last_of (x ∷ []) = some x
last_of (x ∷ y ∷ xs) = last_of (y ∷ xs)

abbrev pub ids : List DecryptedMessage → List Str
ids ms = map (λ m. m.id) ms

-- `scrollMessagesToBottom`: it clears the timers and sets six.
unfoldable pub scroll_messages_to_bottom : Bool → Option Str → Scroll → Scroll
scroll_messages_to_bottom smooth settles s = record s {
  bottom_timers =
      record { delay = 0; smooth = smooth; settles = none }
      ∷ record { delay = 16; smooth = false; settles = none }
      ∷ record { delay = 50; smooth = false; settles = none }
      ∷ record { delay = 120; smooth = false; settles = none }
      ∷ record { delay = 250; smooth = false; settles = none }
      ∷ record { delay = 500; smooth = false; settles = settles }
      ∷ [];
}

-- What a timer does when the list has settled: `el` is the element after it has been scrolled.
unfoldable pub list_settled : Viewport → Option Str → Scroll → Scroll
list_settled el none s = s
list_settled el (some room) s =
    let at_bottom = is_viewport_near_bottom el in
    if str_eq s.initialized_room room
    then record s {
      is_near_bottom = at_bottom;
      show_scroll_btn = not at_bottom;
      history_pagination_enabled = at_bottom;
    }
    else s

-- The effect that a change of the room has.
unfoldable pub list_reset : Scroll → Scroll
list_reset s = record s {
  unread_count = 0;
  show_scroll_btn = false;
  new_message_ids = [];
  is_near_bottom = true;
  previous_message_ids = [];
  initialized_room = [];
  loading_history = false;
  history_pagination_enabled = false;
  snapshot = none;
  pagination_armed = true;
  last_scroll_top = pos 0;
  suppress_pagination_until = 0;
  last_history_load_at = 0;
  animated_sent_ats = [];
  new_msg_timers = [];
  bottom_timers = [];
}

-- The messages that have not been animated yet, and the times of sending that have been.
unfoldable pub to_animate : List Str → List DecryptedMessage → List DecryptedMessage × List Str
to_animate seen [] = ([], seen)
to_animate seen (m ∷ ms) =
    let at = sent_at m in
    let (rest, all) = to_animate (if truthy at then add at seen else seen) ms in
    (if truthy at && has at seen then rest else m ∷ rest, all)

abbrev pub is_system : DecryptedMessage → Bool
is_system m = elim m.body [ none ↦ false | some b ↦ elim b.system [ none ↦ false | some y ↦ true ] ]

-- Whether an appended message counts as unread.
abbrev pub is_incoming : Str → DecryptedMessage → Bool
is_incoming me m = not (str_eq m.sender_id me) && not (is_system m)

unfoldable pub incoming_count : Str → List DecryptedMessage → ℕ
incoming_count me ms = length (keep (is_incoming me) ms)

-- `setNewMessageIds`, with the timer that takes the ids away again.
abbrev pub show_new : List Str → Scroll → Scroll
show_new [] s = s
show_new (k ∷ ks) s = record s {
  new_message_ids = add_all (k ∷ ks) s.new_message_ids;
  new_msg_timers = s.new_msg_timers ++ (k ∷ ks) ∷ [];
}

-- What appended messages do.
unfoldable pub messages_appended : Shown → List DecryptedMessage → Scroll → Scroll
unfolding to_animate scroll_messages_to_bottom incoming_count
messages_appended v appended s =
    let (fresh, all) = to_animate s.animated_sent_ats appended in
    let t = show_new (ids fresh) (record s { animated_sent_ats = all }) in
    if t.is_near_bottom
    then scroll_messages_to_bottom false none t
    else record t { unread_count = t.unread_count + incoming_count v.me appended }

-- `visibleMessages.slice(currentIDs.indexOf(id) + 1)`, if the id stands there.
unfoldable pub after_id : Str → List DecryptedMessage → Option (List DecryptedMessage)
after_id k [] = none
after_id k (m ∷ ms) = if str_eq m.id k then some ms else after_id k ms

abbrev pub is_last : Str → List Str → Bool
is_last k xs = elim (last_of xs) [ none ↦ false | some x ↦ str_eq k x ]

-- The effect on a change of the visible messages, in a room that it has been run in.
unfoldable pub messages_compared : Shown → Scroll → Scroll
unfolding messages_appended after_id
messages_compared v s =
    let t = record s { previous_message_ids = ids v.visible } in
    elim (last_of s.previous_message_ids) [
      | none ↦ t
      | some last ↦
          if not (truthy last) || is_last last (ids v.visible)
          then t
          else elim (after_id last v.visible) [
            | none ↦ t
            | some [] ↦ t
            | some (m ∷ ms) ↦ messages_appended v (m ∷ ms) t
          ]
    ]

-- The effect on a change of the visible messages.
unfoldable pub messages_changed : Shown → Scroll → Scroll
unfolding messages_compared scroll_messages_to_bottom
messages_changed v s =
    let begun = record s {
      initialized_room = v.active_room;
      previous_message_ids = ids v.visible;
    } in
    if length v.visible == 0
    then record s { previous_message_ids = [] }
    else if str_eq s.initialized_room v.active_room
    then messages_compared v s
    else if truthy v.highlighted
    then record begun { history_pagination_enabled = true }
    else scroll_messages_to_bottom false (some v.active_room) begun

-- The timer of an animation.
unfoldable pub new_shown : List Str → Scroll → Scroll
new_shown ks s = record s { new_message_ids = remove_all ks s.new_message_ids }

-- `handleScrollToBottom`.
unfoldable pub handle_scroll_to_bottom : Scroll → Scroll
unfolding scroll_messages_to_bottom
handle_scroll_to_bottom s = record (scroll_messages_to_bottom true none s) { unread_count = 0 }
