-- ===== src/People/Known.antt =====
-- Who is known to be where. (frontend/src/hooks/useIdentity.ts,
-- frontend/src/components/MessengerApp.tsx)
use mathlib.Core.List.{append-nil, append_assoc}
use quiteline.Base.{
  ◌≡◌, refl, sym, subst, ap, ◌∙◌, Bool, true, false, List, [], ◌∷◌, ◌++◌, map, Option, none, some,
  Str, str_eq, truthy, if◌then◌else◌, arith, Bool-cases, inl, inr, codes,
}
use quiteline.Js.OrderedMap.{get}
use quiteline.Js.Spread.{
  set_all, get-set_all, or_value, last_entry, last_entry-get, set_all-IsDistinct,
}
use quiteline.Wire.{Identity, Friend, RealtimeEvent, Presence, presence, online, offline}
use quiteline.Realtime.State.{Hub, Scene, Seen, Deed, publish}
use quiteline.Realtime.Handle.{send_to_user_raw}
use quiteline.People.Presence.{
  init_presence, seen_of, fan_out, tell_all, handle_close, send_to_room,
}

-- The last member with an id.
abbrev pub member_of : Str → List Identity → Option Identity
member_of k [] = none
member_of k (m ∷ ms) = or_value (member_of k ms) (if str_eq m.user_id k then some m else none)

entry_of :
    (k : Str) (ms : List Identity)
    → last_entry k (map (λ (m : Identity). (m.user_id, m)) ms) ≡ member_of k ms
entry_of k [] = refl
entry_of k (m ∷ ms) = rw (entry_of k ms) refl

or_value-none : {V : Type 0} (o : Option V) → or_value o none ≡ o
or_value-none none = refl
or_value-none (some v) = refl

-- What is taken over of a member.
abbrev pub seen_member : List (Str × Seen) → Option Identity → Option Seen
seen_member seen none = none
seen_member seen (some m) = some (seen_of (get m.user_id seen) m)

-- The status that is known of a user, and since when.
abbrev pub status_in : List (Str × Seen) → Str → Presence
status_in seen k = elim (get k seen) [ none ↦ offline | some s ↦ s.status ]

abbrev pub last_seen_in : List (Str × Seen) → Identity → Str
last_seen_in seen m = elim (get m.user_id seen) [ none ↦ m.last_seen_at | some s ↦ s.last_seen_at ]

-- A user is shown as a member: under the member's own name, and with the status and the time that
-- were known of before, or else as offline since the server has seen the member.
abbrev pub IsShownAs : List (Str × Seen) → Identity → Option Seen → Type 0
IsShownAs seen m o =
    (s : Seen) × (o ≡ some s)
    × (s.display_name ≡ m.display_name)
    × (s.status ≡ status_in seen m.user_id)
    × (s.last_seen_at ≡ last_seen_in seen m)

-- What is known of a user after the members of a room: of the last member with the user's id, or, if
-- there is none, what was known before.
abbrev pub IsKnownAfter : List (Str × Seen) → Option Identity → Option Seen → Option Seen → Type 0
IsKnownAfter seen none before o = o ≡ before
IsKnownAfter seen (some m) before o = IsShownAs seen m o

IsKnownAfter-member :
    (seen : List (Str × Seen)) (o : Option Identity) (before : Option Seen)
    → IsKnownAfter seen o before (or_value (seen_member seen o) before)
unfolding get
IsKnownAfter-member seen none before = refl
IsKnownAfter-member seen (some m) before = shown (get m.user_id seen)
  where
    shown :
        (o : Option Seen)
        → (s : Seen) × (some (seen_of o m) ≡ some s)
          × (s.display_name ≡ m.display_name)
          × (s.status ≡ elim o [ none ↦ offline | some s ↦ s.status ])
          × (s.last_seen_at ≡ elim o [ none ↦ m.last_seen_at | some s ↦ s.last_seen_at ])
    shown none = (seen_of none m, refl, refl, refl, refl)
    shown (some s) = (seen_of (some s) m, refl, refl, refl, refl)

seen_entry :
    (k : Str) (seen : List (Str × Seen)) (ms : List Identity)
    → last_entry k (map (λ (m : Identity). (m.user_id, seen_of (get m.user_id seen) m)) ms)
      ≡ seen_member seen (member_of k ms)
seen_entry k seen [] = refl
seen_entry k seen (m ∷ ms) = rw (seen_entry k seen ms) (pick (member_of k ms) (str_eq m.user_id k))
  where
    pick :
        (o : Option Identity) (b : Bool)
        → or_value (seen_member seen o) (if b then some (seen_of (get m.user_id seen) m) else none)
          ≡ seen_member seen (or_value o (if b then some m else none))
    pick none true = refl
    pick none false = refl
    pick (some n) b = refl

get-init_presence_or :
    (k : Str) (members : List Identity) (seen prev : List (Str × Seen))
    → get k (init_presence members seen prev)
      ≡ or_value (seen_member seen (member_of k members)) (get k prev)
unfolding init_presence get
get-init_presence_or k members seen prev =
    let entries = map (λ (m : Identity). (m.user_id, seen_of (get m.user_id seen) m)) members in
    get-set_all k (set_all entries []) prev
    ∙ ap (λ (o : Option Seen). or_value o (get k prev))
        (last_entry-get k (set_all entries []) (set_all-IsDistinct entries [] tt)
          ∙ get-set_all k entries []
          ∙ or_value-none (last_entry k entries)
          ∙ seen_entry k seen members)

-- When the members of a room are known, each is known by the name of the last member with the id, by
-- the status and the time of before, or else as offline since when the server has seen them; and
-- nothing is forgotten about anyone else.
pub get-init_presence :
    (k : Str) (members : List Identity) (seen prev : List (Str × Seen))
    → IsKnownAfter seen (member_of k members) (get k prev) (get k (init_presence members seen prev))
get-init_presence k members seen prev =
    subst (IsKnownAfter seen (member_of k members) (get k prev))
      (sym (get-init_presence_or k members seen prev))
      (IsKnownAfter-member seen (member_of k members) (get k prev))

-- What is told to the friends whose ids are not empty.
abbrev pub told : RealtimeEvent → List Friend → List Deed
told event [] = []
told event (f ∷ fs) =
    if truthy f.user_id
    then publish (codes "user:" ++ f.user_id) event ∷ told event fs
    else told event fs

tell_all-open :
    (s : Scene) (event : RealtimeEvent) (fs : List Friend) (h : Hub)
    → s.socket_open ≡ true
    → tell_all s event fs h ≡ record h { deeds = h.deeds ++ told event fs }
unfolding send_to_user_raw
tell_all-open s event [] h e = rw (append-nil h.deeds) refl
tell_all-open s event (f ∷ fs) h e = elim (Bool-cases (truthy f.user_id)) [
  | inl t ↦
      rw (e, t)
        (tell_all-open s event fs
            (record h { deeds = h.deeds ++ publish (codes "user:" ++ f.user_id) event ∷ [] }) e
          ∙ ap (λ (ds : List Deed). record h { deeds = ds })
              (append_assoc h.deeds _ (told event fs)))
  | inr t ↦ rw (e, t) (tell_all-open s event fs h e)
]

tell_all-shut :
    (s : Scene) (event : RealtimeEvent) (fs : List Friend) (h : Hub)
    → s.socket_open ≡ false
    → tell_all s event fs h ≡ h
unfolding send_to_user_raw
tell_all-shut s event [] h e = refl
tell_all-shut s event (f ∷ fs) h e = rw e (tell_all-shut s event fs h e)

-- A client whose socket is open tells each accepted friend once that it is online, asking for an
-- answer, when it gets connected, and once that it is offline when its page is closed, and then the
-- open room if there is one; without an open socket it tells nobody. Nothing else changes.
pub fan_out-handle_close :
    (s : Scene) (me : Identity) (fs : List Friend) (h : Hub)
    → s.identity ≡ some me
    → let hello : RealtimeEvent = presence me.user_id me.display_name online s.now_text true in
      let bye : RealtimeEvent = presence me.user_id me.display_name offline s.now_text false in
      (fan_out true s fs h
        ≡ (if s.socket_open then record h { deeds = h.deeds ++ told hello fs } else h))
      × (handle_close s fs h ≡ (
          if s.socket_open
          then record h {
            deeds =
                h.deeds
                ++ (told bye fs
                    ++ (if truthy s.active_room
                        then publish (codes "room:" ++ s.active_room) bye ∷ []
                        else []));
          }
          else h))
unfolding fan_out handle_close send_to_room
fan_out-handle_close s me fs h i = elim (Bool-cases s.socket_open) [
  | inl e ↦
      let hello =
        tell_all-open s (presence me.user_id me.display_name online s.now_text true) fs h e in
      let bye =
        tell_all-open s (presence me.user_id me.display_name offline s.now_text false) fs h e in
      ground (
        arith,
        i,
        e,
        hello,
        bye,
        append_assoc h.deeds
            (told (presence me.user_id me.display_name offline s.now_text false) fs)
            (publish (codes "room:" ++ s.active_room)
                (presence me.user_id me.display_name offline s.now_text false)
              ∷ []),
        append-nil (told (presence me.user_id me.display_name offline s.now_text false) fs),
      )
  | inr e ↦
      let hello =
        tell_all-shut s (presence me.user_id me.display_name online s.now_text true) fs h e in
      let bye =
        tell_all-shut s (presence me.user_id me.display_name offline s.now_text false) fs h e in
      ground (arith, i, e, hello, bye)
]
