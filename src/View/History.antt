-- ===== src/View/History.antt =====
-- When older messages are loaded, and how the list keeps its place.
-- (frontend/src/components/chat/ChatView.tsx)
use quiteline.Base.{
  Bool, true, false, not, ◌&&◌, ◌||◌, List, [], ◌∷◌, Option, none, some, ℕ, ◌+◌, ltb, leb, ℤ, pos,
  pos_part, neg_part, ltb_ℤ, if◌then◌else◌, Str, length,
}
use quiteline.View.Scroll.{
  Viewport, Snapshot, Scroll, Shown, minus, is_viewport_near_bottom, list_settled, messages_changed,
  new_shown, handle_scroll_to_bottom,
}

abbrev pub snapshot_of : Shown → Option Viewport → Option Snapshot
snapshot_of v none = none
snapshot_of v (some el) =
    some (record { height = el.scroll_height; top = el.scroll_top; count = length v.visible })

-- `handleLoadMoreMessages` until `loadMoreMessages` has been called.
unfoldable pub handle_load_more_messages : Shown → ℕ → Option Viewport → Scroll → Scroll
handle_load_more_messages v now el s =
    if s.loading_history || v.is_loading_more || not v.has_more
    then s
    else if ltb now (s.last_history_load_at + 900)
    then s
    else record s {
      last_history_load_at = now;
      snapshot = snapshot_of v el;
      loading_history = true;
      loads = now ∷ s.loads;
    }

-- And after `loadMoreMessages` has ended, with an error or without.
unfoldable pub load_ended : Scroll → Scroll
load_ended s = elim s.snapshot [ none ↦ record s { loading_history = false } | some p ↦ s ]

-- `el.scrollHeight - snapshot.height + snapshot.top`.
abbrev pub next_top : Viewport → Snapshot → ℤ
next_top el p = minus (el.scroll_height + pos_part p.top) (p.height + neg_part p.top)

-- The effect that keeps what is seen in its place when older messages are put before it: the state,
-- and the new `scrollTop` if it is set.
unfoldable pub keep_position : Shown → ℕ → Option Viewport → Scroll → Scroll × Option ℤ
keep_position v now none s = (s, none)
keep_position v now (some el) s = elim s.snapshot [
  | none ↦ (s, none)
  | some p ↦
      if v.is_loading_more || (leb (length v.visible) p.count && v.has_more) then (s, none) else (
        record s {
          last_scroll_top = next_top el p;
          snapshot = none;
          loading_history = false;
          pagination_armed = false;
          suppress_pagination_until = now + 450;
        },
        some (next_top el p),
      )
]

-- `snapshot.top = y`, while the history loads.
abbrev pub move_snapshot : Bool → ℤ → Option Snapshot → Option Snapshot
move_snapshot loading y none = none
move_snapshot loading y (some p) = some (if loading then record p { top = y } else p)

-- Whether a scroll to `y` asks for older messages.
unfoldable pub wants_history : Shown → ℕ → ℤ → Scroll → Bool
wants_history v now y s =
    s.history_pagination_enabled
    && ltb_ℤ y (pos 120)
    && v.has_more
    && not v.is_loading_more
    && not s.loading_history
    && (s.pagination_armed || (ltb_ℤ (pos 260) y && leb s.suppress_pagination_until now))
    && ltb_ℤ y s.last_scroll_top
    && (not (ltb_ℤ s.last_scroll_top (pos 120)) && ltb_ℤ y (pos 120))
    && leb s.suppress_pagination_until now

-- `onScrollPositionChange`.
unfoldable pub on_scroll : Shown → ℕ → ℤ → Viewport → Scroll → Scroll
unfolding wants_history handle_load_more_messages
on_scroll v now y el s =
    let at_bottom = is_viewport_near_bottom el in
    let t = record s {
      is_near_bottom = at_bottom;
      show_scroll_btn = not at_bottom;
      unread_count = if at_bottom then 0 else s.unread_count;
      last_scroll_top = y;
      snapshot = move_snapshot s.loading_history y s.snapshot;
      pagination_armed =
          s.pagination_armed || (ltb_ℤ (pos 260) y && leb s.suppress_pagination_until now);
    } in
    if wants_history v now y s
    then handle_load_more_messages v now (some el) (record t { pagination_armed = false })
    else t

-- What can happen to a list while a room is open.
pub data ViewEvent : Type 0 where
  -- The time, the new top, and the element.
  scrolled : ℕ → ℤ → Viewport → ViewEvent
  changed : ViewEvent
  settled : Viewport → Option Str → ViewEvent
  animation_ended : List Str → ViewEvent
  bottom_asked : ViewEvent
  loaded : ViewEvent
  -- The time, and the element if it is there.
  laid_out : ℕ → Option Viewport → ViewEvent

unfoldable pub on_event : Shown → ViewEvent → Scroll → Scroll
unfolding on_scroll messages_changed list_settled new_shown handle_scroll_to_bottom load_ended
    keep_position
on_event v (scrolled now y el) s = on_scroll v now y el s
on_event v changed s = messages_changed v s
on_event v (settled el room) s = list_settled el room s
on_event v (animation_ended ks) s = new_shown ks s
on_event v bottom_asked s = handle_scroll_to_bottom s
on_event v loaded s = load_ended s
on_event v (laid_out now el) s = (keep_position v now el s).0

unfoldable pub run : List (Shown × ViewEvent) → Scroll → Scroll
unfolding on_event
run [] s = s
run ((v, e) ∷ es) s = run es (on_event v e s)
