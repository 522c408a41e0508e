-- ===== src/View/Place.antt =====
-- How the list keeps its place, and when it stops to load. (frontend/src/components/chat/ChatView.tsx)
use quiteline.Base.{
  ◌≡◌, refl, ◌∙◌, Bool, true, false, List, [], ◌∷◌, Option, none, some, ℕ, ◌+◌, ◌≤◌, ℤ, pos_part,
  neg_part, length, arith, All,
}
use quiteline.View.Scroll.{
  Viewport, Snapshot, Scroll, Shown, scroll_messages_to_bottom, list_settled, messages_appended,
  messages_compared, messages_changed, new_shown, handle_scroll_to_bottom,
}
use quiteline.View.History.{
  handle_load_more_messages, load_ended, keep_position, wants_history, on_scroll, ViewEvent,
  scrolled, changed, settled, animation_ended, bottom_asked, loaded, laid_out, on_event, run,
  move_snapshot,
}

-- Older messages that are put before the list leave its distance to the bottom as it was (written
-- without subtraction), and the list may load again.
pub keep_position-next_top :
    (v : Shown) (now : ℕ) (el : Viewport) (p : Snapshot) (s t : Scroll) (top : ℤ)
    → s.snapshot ≡ some p
    → keep_position v now (some el) s ≡ (t, some top)
    → (el.scroll_height + pos_part p.top + neg_part top ≡ p.height + neg_part p.top + pos_part top)
      × (t.loading_history ≡ false)
      × (t.snapshot ≡ none)
unfolding keep_position
keep_position-next_top v now el p s t top e k = ground arith

abbrev Counts : ℕ → Option Snapshot → Type 0
Counts c none = ⊥
Counts c (some p) = p.count ≡ c

-- A load has been asked for, with so many messages visible.
abbrev Waits : ℕ → Scroll → Type 0
Waits c s = (s.loading_history ≡ true) × Counts c s.snapshot

abbrev pub IsShort : ℕ → Shown × ViewEvent → Type 0
IsShort c e = (length e.0.visible ≤ c) × (e.0.has_more ≡ true)

Counts-move_snapshot :
    (c : ℕ) (b : Bool) (y : ℤ) (o : Option Snapshot) → Counts c o → Counts c (move_snapshot b y o)
Counts-move_snapshot c b y none h = h
Counts-move_snapshot c true y (some p) h = h
Counts-move_snapshot c false y (some p) h = h

Waits-scrolled :
    (c : ℕ) (v : Shown) (now : ℕ) (y : ℤ) (el : Viewport) (s : Scroll)
    → Waits c s
    → Waits c (on_scroll v now y el s) × ((on_scroll v now y el s).loads ≡ s.loads)
unfolding on_scroll
Waits-scrolled c v now y el s w =
    let shut : wants_history v now y s ≡ false = unfold wants_history in ground (arith, w.0) in
    rw (shut, on_scroll) ((w.0, Counts-move_snapshot c s.loading_history y s.snapshot w.1), refl)

Waits-laid_out :
    (c : ℕ) (v : Shown) (now : ℕ) (el : Option Viewport) (s : Scroll)
    → IsShort c (v, laid_out now el)
    → Waits c s
    → Waits c (keep_position v now el s).0 × ((keep_position v now el s).0.loads ≡ s.loads)
unfolding keep_position
Waits-laid_out c v now el s h w = ground arith

Waits-changed :
    (c : ℕ) (v : Shown) (s : Scroll)
    → Waits c s
    → Waits c (messages_changed v s) × ((messages_changed v s).loads ≡ s.loads)
unfolding messages_changed messages_compared messages_appended scroll_messages_to_bottom
Waits-changed c v s w = ground arith

on_event-Waits :
    (c : ℕ) (v : Shown) (e : ViewEvent) (s : Scroll)
    → IsShort c (v, e)
    → Waits c s
    → Waits c (on_event v e s) × ((on_event v e s).loads ≡ s.loads)
unfolding on_event
on_event-Waits c v (scrolled now y el) s h w = Waits-scrolled c v now y el s w
on_event-Waits c v changed s h w = Waits-changed c v s w
on_event-Waits c v (settled el room) s h w = unfold list_settled in ground arith
on_event-Waits c v (animation_ended ks) s h w = unfold new_shown in (w, refl)
on_event-Waits c v bottom_asked s h w =
    unfold handle_scroll_to_bottom scroll_messages_to_bottom in (w, refl)
on_event-Waits c v loaded s h w = unfold load_ended in ground arith
on_event-Waits c v (laid_out now el) s h w = Waits-laid_out c v now el s h w

run-Waits :
    (c : ℕ) (es : List (Shown × ViewEvent)) (s : Scroll)
    → All (IsShort c) es
    → Waits c s
    → (run es s).loads ≡ s.loads
unfolding run
run-Waits c [] s h w = refl
run-Waits c ((v, e) ∷ es) s h w =
    let (wait, same) = on_event-Waits c v e s h.0 w in
    run-Waits c es (on_event v e s) h.1 wait ∙ same

-- A list that has more to load, and has not loaded for 900 milliseconds, asks for older messages
-- once; if then no more messages get visible, as when the request fails, nothing that happens to the
-- list asks again.
pub handle_load_more_messages-run :
    (v : Shown) (now : ℕ) (el : Viewport) (s : Scroll) (es : List (Shown × ViewEvent))
    → s.loading_history ≡ false
    → v.is_loading_more ≡ false
    → v.has_more ≡ true
    → s.last_history_load_at + 900 ≤ now
    → All (IsShort (length v.visible)) es
    → (run es (handle_load_more_messages v now (some el) s)).loads ≡ now ∷ s.loads
handle_load_more_messages-run v now el s es a b c d h =
    let t = handle_load_more_messages v now (some el) s in
    let asked : Waits (length v.visible) t × (t.loads ≡ now ∷ s.loads) =
      unfold handle_load_more_messages in ground (arith, a, b, c, d) in
    run-Waits (length v.visible) es t h asked.0 ∙ asked.1
