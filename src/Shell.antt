-- ===== src/Shell.antt =====
-- The frame of the application: the width of its side bar, and the tabs of a phone.
-- (frontend/src/components/layout/AppShell.tsx)
use quiteline.Base.{
  ◌≡◌, refl, Bool, true, false, ◌&&◌, List, [], ◌∷◌, Option, none, some, ℕ, ◌+◌, ℤ, pos, pos_part,
  neg_part, ltb_ℤ, ◌≤ℤ◌, if◌then◌else◌, arith, ◌⊎◌, inl, inr, Bool-cases, suc, Option-cases, ◌∙◌,
  sym, subst,
}
use quiteline.Session.State.{AppView, chat, rooms, profile, contacts, settings, calls, App}
use quiteline.Session.Rooms.{close_chat}
use quiteline.View.Scroll.{minus}

abbrev pub min_width : ℤ
min_width = pos 280

abbrev pub max_width : ℤ
max_width = pos 520

abbrev pub max_ℤ : ℤ → ℤ → ℤ
max_ℤ a b = if ltb_ℤ a b then b else a

abbrev pub min_ℤ : ℤ → ℤ → ℤ
min_ℤ a b = if ltb_ℤ b a then b else a

-- `clamp`.
unfoldable pub clamp : ℤ → ℤ → ℤ → ℤ
clamp value low high = min_ℤ (max_ℤ value low) high

-- `storedNumber`, on what the store's text is as a number (none is NaN or an infinity).
unfoldable pub stored_number : Bool → Option ℤ → ℤ → ℤ
stored_number has_window parsed fallback = elim parsed [
  | none ↦ fallback
  | some n ↦ if has_window && ltb_ℤ (pos 0) n then n else fallback
]

-- Where a resize has begun: the pointer, and the side bar's width.
pub record Resize : Type 0 where
  pub start_x : ℤ
  pub start_width : ℤ

pub record Shell : Type 0 where
  pub width : ℤ
  pub resize : Option Resize
  -- Whether the listeners of the pointer are there.
  pub listens : Bool

-- `startDesktopResize`.
unfoldable pub start_desktop_resize : Bool → ℤ → Shell → Shell
start_desktop_resize is_mobile x s =
    if is_mobile
    then s
    else record s { resize = some (record { start_x = x; start_width = s.width }); listens = true }

-- `state.startSidebarWidth + (moveEvent.clientX - state.startX)`.
abbrev pub moved : Resize → ℤ → ℤ
moved r x =
    minus (pos_part r.start_width + pos_part x + neg_part r.start_x)
      (neg_part r.start_width + pos_part r.start_x + neg_part x)

unfoldable pub handle_move : ℤ → Shell → Shell
unfolding clamp
handle_move x s = elim s.resize [
  | none ↦ s
  | some r ↦ if s.listens then record s { width = clamp (moved r x) min_width max_width } else s
]

unfoldable pub stop_resize : Shell → Shell
stop_resize s = record s { resize = none; listens = false }

pub data Pointer : Type 0 where
  press move : ℤ → Pointer
  let_go : Pointer

unfoldable pub on_pointer : Bool → Pointer → Shell → Shell
unfolding start_desktop_resize handle_move stop_resize
on_pointer is_mobile (press x) s = start_desktop_resize is_mobile x s
on_pointer is_mobile (move x) s = handle_move x s
on_pointer is_mobile let_go s = stop_resize s

unfoldable pub run_pointer : Bool → List Pointer → Shell → Shell
unfolding on_pointer
run_pointer is_mobile [] s = s
run_pointer is_mobile (p ∷ ps) s = run_pointer is_mobile ps (on_pointer is_mobile p s)

pub data Tab : Type 0 where
  contacts_tab rooms_tab calls_tab settings_tab : Tab

pub record Tabs : Type 0 where
  pub app : App
  pub contacts_reset_key : ℕ
  pub settings_reset_key : ℕ

abbrev pub view_of : Tab → AppView
view_of contacts_tab = contacts
view_of rooms_tab = rooms
view_of calls_tab = calls
view_of settings_tab = settings

abbrev pub same_view : AppView → AppView → Bool
same_view chat v = elim v [ chat ↦ true | _ ↦ false ]
same_view rooms v = elim v [ rooms ↦ true | _ ↦ false ]
same_view profile v = elim v [ profile ↦ true | _ ↦ false ]
same_view contacts v = elim v [ contacts ↦ true | _ ↦ false ]
same_view settings v = elim v [ settings ↦ true | _ ↦ false ]
same_view calls v = elim v [ calls ↦ true | _ ↦ false ]

-- `mobileView === 'chat' ? 'rooms' : mobileView`.
abbrev pub without_chat : AppView → AppView
without_chat v = if same_view chat v then rooms else v

-- `openMobileTab`.
unfoldable pub open_mobile_tab : Tab → Tabs → Tabs
unfolding close_chat
open_mobile_tab tab s =
    let again = same_view (without_chat s.app.mobile_view) (view_of tab) in
    let shown = record s.app { mobile_view = view_of tab } in
    elim tab [
      | rooms_tab ↦ if again then record s { app = close_chat s.app } else record s { app = shown }
      | contacts_tab ↦ record s {
        app = shown;
        contacts_reset_key = if again then suc s.contacts_reset_key else s.contacts_reset_key;
      }
      | settings_tab ↦ record s {
        app = shown;
        settings_reset_key = if again then suc s.settings_reset_key else s.settings_reset_key;
      }
      | calls_tab ↦ record s { app = shown }
    ]

-- A width is within its bounds.
abbrev pub IsWithin : ℤ → Type 0
IsWithin w = ◌≤ℤ◌ min_width w × ◌≤ℤ◌ w max_width

clamp-IsWithin : (v : ℤ) → IsWithin (clamp v min_width max_width)
unfolding clamp
clamp-IsWithin v = ground arith

handle_move-IsWithin :
    (x : ℤ) (s : Shell) → ((handle_move x s).width ≡ s.width) ⊎ IsWithin (handle_move x s).width
unfolding handle_move
handle_move-IsWithin x s = elim (Option-cases s.resize) [
  | inl n ↦ rw (n, handle_move) (inl refl)
  | inr (r, n) ↦ elim (Bool-cases s.listens) [
    | inl l ↦ rw (n, handle_move) (rw l (inr (clamp-IsWithin (moved r x))))
    | inr l ↦ rw (n, handle_move) (rw l (inl refl))
  ]
]

on_pointer-IsWithin :
    (is_mobile : Bool) (p : Pointer) (s : Shell)
    → ((on_pointer is_mobile p s).width ≡ s.width) ⊎ IsWithin (on_pointer is_mobile p s).width
unfolding on_pointer start_desktop_resize stop_resize
on_pointer-IsWithin true (press x) s = inl refl
on_pointer-IsWithin false (press x) s = inl refl
on_pointer-IsWithin is_mobile (move x) s = handle_move-IsWithin x s
on_pointer-IsWithin is_mobile let_go s = inl refl

either : (w v u : ℤ) → (v ≡ w) ⊎ IsWithin v → (u ≡ v) ⊎ IsWithin u → (u ≡ w) ⊎ IsWithin u
either w v u p (inr i) = inr i
either w v u (inl e) (inl f) = inl (f ∙ e)
either w v u (inr i) (inl f) = inr (subst IsWithin (sym f) i)

-- However the pointer moves, the width is the one of the start or within its bounds.
pub run_pointer-IsWithin :
    (is_mobile : Bool) (ps : List Pointer) (s : Shell)
    → ((run_pointer is_mobile ps s).width ≡ s.width) ⊎ IsWithin (run_pointer is_mobile ps s).width
unfolding run_pointer
run_pointer-IsWithin is_mobile [] s = inl refl
run_pointer-IsWithin is_mobile (p ∷ ps) s =
    either s.width (on_pointer is_mobile p s).width (run_pointer is_mobile (p ∷ ps) s).width
      (on_pointer-IsWithin is_mobile p s)
      (run_pointer-IsWithin is_mobile ps (on_pointer is_mobile p s))
