-- ===== src/View/Loads.antt =====
-- How often older messages are loaded, and what the list shows then.
-- (frontend/src/components/chat/ChatView.tsx)
use quiteline.Base.{
  ◌≡◌, refl, Bool, true, false, List, [], ◌∷◌, Option, some, ℕ, ◌+◌, ◌≤◌, ◌||◌, not, Bool-cases,
  inl, inr, arith, ◌⊎◌, subst, sym, ltb, if◌then◌else◌,
}
use quiteline.View.Scroll.{
  Viewport, Scroll, Shown, scroll_messages_to_bottom, list_settled, messages_appended,
  messages_compared, messages_changed, new_shown, handle_scroll_to_bottom, is_viewport_near_bottom,
}
use quiteline.View.History.{
  handle_load_more_messages, load_ended, keep_position, wants_history, on_scroll, ViewEvent,
  scrolled, changed, settled, animation_ended, bottom_asked, loaded, laid_out, on_event, run,
  move_snapshot,
}

-- Each is 900 or more above the next.
abbrev pub IsSpaced : List ℕ → Type 0
IsSpaced [] = Unit
IsSpaced (t ∷ []) = Unit
IsSpaced (t ∷ u ∷ ts) = (u + 900 ≤ t) × IsSpaced (u ∷ ts)

-- The last load is the one that the state remembers.
abbrev Remembers : List ℕ → ℕ → Type 0
Remembers [] n = Unit
Remembers (t ∷ ts) n = n ≡ t

record Inv (s : Scroll) : Type 0 where
  spaced : IsSpaced s.loads
  remembers : Remembers s.loads s.last_history_load_at

IsSpaced-next :
    (ts : List ℕ) (n now : ℕ) → IsSpaced ts → Remembers ts n → n + 900 ≤ now → IsSpaced (now ∷ ts)
IsSpaced-next [] n now h r l = tt
IsSpaced-next (t ∷ ts) n now h r l = (omega (arith, r), h)

-- What does not load does not change what is remembered.
abbrev IsKept : Scroll → Scroll → Type 0
IsKept s t = (t.loads ≡ s.loads) × (t.last_history_load_at ≡ s.last_history_load_at)

-- What a load adds.
abbrev IsLoad : ℕ → Scroll → Scroll → Type 0
IsLoad now s t =
    (t.loads ≡ now ∷ s.loads)
    × (t.last_history_load_at ≡ now)
    × (s.last_history_load_at + 900 ≤ now)
    × (s.loading_history ≡ false)

abbrev Advances : Scroll → Scroll → Type 0
Advances s t = IsKept s t ⊎ ((now : ℕ) × IsLoad now s t)

Advances-Inv : (s t : Scroll) → Advances s t → Inv s → Inv t
Advances-Inv s t (inl k) i = record {
  spaced = subst IsSpaced (sym k.0) i.spaced;
  remembers = rw (k.0, k.1) i.remembers;
}
Advances-Inv s t (inr (now, (l, r, n, b))) i = record {
  spaced =
      subst IsSpaced (sym l)
        (IsSpaced-next s.loads s.last_history_load_at now i.spaced i.remembers n);
  remembers = rw (l, r) refl;
}

handle_load_more_messages-Advances :
    (v : Shown) (now : ℕ) (el : Option Viewport) (s : Scroll)
    → Advances s (handle_load_more_messages v now el s)
unfolding handle_load_more_messages
handle_load_more_messages-Advances v now el s =
    elim (Bool-cases (s.loading_history || v.is_loading_more || not v.has_more)) [
      | inl a ↦ rw a (inl (refl, refl))
      | inr a ↦ elim (Bool-cases (ltb now (s.last_history_load_at + 900))) [
        | inl b ↦ rw (a, b) (inl (refl, refl))
        | inr b ↦ rw (a, b) (inr (now, (refl, refl, ground arith, ground arith)))
      ]
    ]

messages_changed-IsKept : (v : Shown) (s : Scroll) → IsKept s (messages_changed v s)
unfolding messages_changed messages_compared messages_appended scroll_messages_to_bottom
messages_changed-IsKept v s = ground arith

scroll-Advances :
    (s : Scroll) (b : Bool) (t u : Scroll)
    → Advances s t
    → Advances s u
    → Advances s (if b then t else u)
scroll-Advances s true t u p q = p
scroll-Advances s false t u p q = q

on_event-Advances : (v : Shown) (e : ViewEvent) (s : Scroll) → Advances s (on_event v e s)
unfolding on_event on_scroll
on_event-Advances v (scrolled now y el) s =
    let t = record s {
      is_near_bottom = is_viewport_near_bottom el;
      show_scroll_btn = not (is_viewport_near_bottom el);
      unread_count = if is_viewport_near_bottom el then 0 else s.unread_count;
      last_scroll_top = y;
      snapshot = move_snapshot s.loading_history y s.snapshot;
      pagination_armed = false;
    } in
    scroll-Advances s (wants_history v now y s) _ _
      (handle_load_more_messages-Advances v now (some el) t) (inl (refl, refl))
on_event-Advances v changed s = inl (messages_changed-IsKept v s)
on_event-Advances v (settled el room) s = inl (unfold list_settled in ground arith)
on_event-Advances v (animation_ended ks) s = inl (unfold new_shown in (refl, refl))
on_event-Advances v bottom_asked s =
    inl (unfold handle_scroll_to_bottom scroll_messages_to_bottom in (refl, refl))
on_event-Advances v loaded s = inl (unfold load_ended in ground arith)
on_event-Advances v (laid_out now el) s = inl (unfold keep_position in ground arith)

run-Inv : (es : List (Shown × ViewEvent)) (s : Scroll) → Inv s → Inv (run es s)
unfolding run
run-Inv [] s i = i
run-Inv ((v, e) ∷ es) s i =
    run-Inv es (on_event v e s) (Advances-Inv s (on_event v e s) (on_event-Advances v e s) i)

-- While a room is open, whatever happens to its list, two loads of older messages are asked for
-- with 900 milliseconds between them at least.
pub run-IsSpaced :
    (es : List (Shown × ViewEvent)) (s : Scroll) → s.loads ≡ [] → IsSpaced (run es s).loads
run-IsSpaced es s e = (run-Inv es s (record { spaced = rw e tt; remembers = rw e tt })).spaced
