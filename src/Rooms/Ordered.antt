-- ===== src/Rooms/Ordered.antt =====
-- The list of rooms that the events of a session leave, against what they leave of each room.
-- (frontend/src/hooks/useRooms.ts, frontend/src/components/MessengerApp.tsx)
use mathlib.Core.Quot
use mathlib.Core.Quot.{Quot-set}
use quiteline.Base.{
  ◌≡◌, refl, sym, ◌∙◌, subst, Bool, true, false, ◌&&◌, List, [], ◌∷◌, map, any, Option, none, some,
  ℤ, Str, str_eq, truthy, if◌then◌else◌, arith, All, Bool-cases, inl, inr, ◌⊎◌,
}
use quiteline.Js.Number.{IsNum}
use quiteline.Js.Sort.{sort, place, earlier, InOrder, sort-earlier-InOrder}
use quiteline.Wire.{
  Room, RealtimeEvent, typing, presence, profile_updated, chats_changed, rooms_changed,
  friends_changed, sessions_changed, session_revoked, message_read, message_created, signal,
}
use quiteline.Rooms.Activity.{Activity, patch_room, patch_room_activity, active_at}
use quiteline.Rooms.Unread.{rooms_of}
use quiteline.Realtime.State.{Hub, Scene}
use quiteline.Realtime.Handle.{handle_realtime_event, arrival, was_read}
use quiteline.Rooms.Events.{on_rooms, handle_realtime_event-rooms, handle_all}
use quiteline.Rooms.Each.{room_after_all, handle_all-bag}
use quiteline.Rooms.Bag.{bag}

-- Whether an event is about the activity in a room.
abbrev pub is_activity : Scene → RealtimeEvent → Bool
is_activity s (message_created r m u a) = truthy s.current_user
is_activity s (message_read r u a) = truthy s.current_user && str_eq u s.current_user
is_activity s _ = false

module _ {A : Type 0} (gt : A → A → Bool) (P : A → Type 0) where
  All-place : (x : A) (xs : List A) → All P (place gt x xs) → P x × All P xs
  unfolding place
  All-place x [] h = (h.0, tt)
  All-place x (y ∷ ys) h = go (gt x y) (All-place x ys) h
    where
      go :
          (b : Bool)
          → (All P (place gt x ys) → P x × All P ys)
          → All P (if b then y ∷ place gt x ys else x ∷ y ∷ ys)
          → P x × All P (y ∷ ys)
      go true rest h = let r = rest h.1 in (r.0, (h.0, r.1))
      go false rest h = h

  All-sort : (xs : List A) → All P (sort gt xs) → All P xs
  unfolding sort
  All-sort [] h = tt
  All-sort (x ∷ xs) h = let r = All-place x (sort gt xs) h in (r.0, All-sort xs r.1)

abbrev pub IsReadable : (Str → Option ℤ) → List Room → Type 0
IsReadable parse_date rs = All (λ r. IsNum (active_at parse_date r)) rs

patched-InOrder :
    (parse_date : Str → Option ℤ) (k : Str) (o : Activity) (rooms : Option (List Room))
    → IsReadable parse_date (rooms_of (patch_room_activity parse_date k o rooms))
    → InOrder (earlier (active_at parse_date)) (rooms_of (patch_room_activity parse_date k o rooms))
unfolding patch_room_activity
patched-InOrder parse_date k o none h = tt
patched-InOrder parse_date k o (some rooms) h =
    sort-earlier-InOrder (active_at parse_date) (map (patch_room k o) rooms) (
      All-sort (earlier (active_at parse_date)) (λ r. IsNum (active_at parse_date r))
        (map (patch_room k o) rooms) h)

calm_event :
    (parse_date : Str → Option ℤ) (s : Scene) (e : RealtimeEvent) (o : Option (List Room))
    → is_activity s e ≡ false
    → on_rooms parse_date s e o ≡ o
calm_event parse_date s (typing u n p a) o h = refl
calm_event parse_date s (presence u n p a q) o h = refl
calm_event parse_date s (profile_updated u n a) o h = refl
calm_event parse_date s (chats_changed r u a) o h = refl
calm_event parse_date s (rooms_changed r u a) o h = refl
calm_event parse_date s (friends_changed u a) o h = refl
calm_event parse_date s (sessions_changed u a) o h = refl
calm_event parse_date s (session_revoked u k a) o h = refl
calm_event parse_date s (signal e) o h = refl
calm_event parse_date s (message_created k m u a) o h = rw h refl
calm_event parse_date s (message_read k u a) o h = rw h refl

-- An event that is about activity leaves the rooms in order, if their dates can be read.
activity-InOrder :
    (parse_date : Str → Option ℤ) (s : Scene) (e : RealtimeEvent) (o : Option (List Room))
    → is_activity s e ≡ true
    → IsReadable parse_date (rooms_of (on_rooms parse_date s e o))
    → InOrder (earlier (active_at parse_date)) (rooms_of (on_rooms parse_date s e o))
activity-InOrder parse_date s (typing u n p a) o t h = absurd (ground (arith, t))
activity-InOrder parse_date s (presence u n p a q) o t h = absurd (ground (arith, t))
activity-InOrder parse_date s (profile_updated u n a) o t h = absurd (ground (arith, t))
activity-InOrder parse_date s (chats_changed r u a) o t h = absurd (ground (arith, t))
activity-InOrder parse_date s (rooms_changed r u a) o t h = absurd (ground (arith, t))
activity-InOrder parse_date s (friends_changed u a) o t h = absurd (ground (arith, t))
activity-InOrder parse_date s (sessions_changed u a) o t h = absurd (ground (arith, t))
activity-InOrder parse_date s (session_revoked u k a) o t h = absurd (ground (arith, t))
activity-InOrder parse_date s (signal e) o t h = absurd (ground (arith, t))
activity-InOrder parse_date s (message_created k m u a) o t h = ordered (truthy s.current_user) t h
  where
    ordered :
        (b : Bool)
        → b ≡ true
        → IsReadable parse_date
            (rooms_of (if b then patch_room_activity parse_date k (arrival s k u a) o else o))
        → InOrder
            (earlier (active_at parse_date))
            (rooms_of (if b then patch_room_activity parse_date k (arrival s k u a) o else o))
    ordered true t h = patched-InOrder parse_date k (arrival s k u a) o h
    ordered false t h = absurd (ground (arith, t))
activity-InOrder parse_date s (message_read k u a) o t h =
    ordered (truthy s.current_user && str_eq u s.current_user) t h
  where
    ordered :
        (b : Bool)
        → b ≡ true
        → IsReadable parse_date
            (rooms_of (if b then patch_room_activity parse_date k was_read o else o))
        → InOrder
            (earlier (active_at parse_date))
            (rooms_of (if b then patch_room_activity parse_date k was_read o else o))
    ordered true t h = patched-InOrder parse_date k was_read o h
    ordered false t h = absurd (ground (arith, t))

handle_all_calm :
    (parse_date : Str → Option ℤ) (s : Scene) (es : List RealtimeEvent) (h : Hub)
    → any (is_activity s) es ≡ false
    → (handle_all parse_date s es h).rooms ≡ h.rooms
unfolding handle_all
handle_all_calm parse_date s [] h q = refl
handle_all_calm parse_date s (e ∷ es) h q =
    handle_all_calm parse_date s es (handle_realtime_event parse_date s e h) (ground (arith, q))
    ∙ handle_realtime_event-rooms parse_date s h e
    ∙ calm_event parse_date s e h.rooms (ground (arith, q))

handle_all-InOrder :
    (parse_date : Str → Option ℤ) (s : Scene) (es : List RealtimeEvent) (h : Hub)
    → any (is_activity s) es ≡ true
    → IsReadable parse_date (rooms_of (handle_all parse_date s es h).rooms)
    → InOrder (earlier (active_at parse_date)) (rooms_of (handle_all parse_date s es h).rooms)
unfolding handle_all
handle_all-InOrder parse_date s [] h t r = absurd (ground (arith, t))
handle_all-InOrder parse_date s (e ∷ es) h t r =
    let next = handle_realtime_event parse_date s e h in
    elim (Bool-cases (any (is_activity s) es)) [
      | inl later ↦ handle_all-InOrder parse_date s es next later r
      | inr none_later ↦
          let same : (handle_all parse_date s es next).rooms ≡ on_rooms parse_date s e h.rooms =
            handle_all_calm parse_date s es next none_later
            ∙ handle_realtime_event-rooms parse_date s h e in
          subst (λ (o : Option (List Room)). InOrder (earlier (active_at parse_date)) (rooms_of o))
            (sym same)
            (activity-InOrder parse_date s e h.rooms (ground (arith, t, none_later))
              (subst (λ (o : Option (List Room)). IsReadable parse_date (rooms_of o)) same r))
    ]

-- If the dates of the rooms that events leave can be read, then these are, their order forgotten, what
-- the events one after the other leave of each room for itself; and they stand in order, the latest
-- active first, if an event was about the activity in a room, and are the same list otherwise.
pub handle_all-room_after_all :
    (parse_date : Str → Option ℤ) (s : Scene) (es : List RealtimeEvent) (h : Hub)
    → IsReadable parse_date (rooms_of (handle_all parse_date s es h).rooms)
    → (bag (handle_all parse_date s es h).rooms
        ≡ Quot.mk (map (room_after_all s es) (rooms_of h.rooms)))
      × ((any (is_activity s) es ≡ true)
            × InOrder
                (earlier (active_at parse_date))
                (rooms_of (handle_all parse_date s es h).rooms)
          ⊎ (any (is_activity s) es ≡ false) × ((handle_all parse_date s es h).rooms ≡ h.rooms))
handle_all-room_after_all parse_date s es h r = (
  handle_all-bag parse_date s es h,
  elim (Bool-cases (any (is_activity s) es)) [
    | inl t ↦ inl (t, handle_all-InOrder parse_date s es h t r)
    | inr t ↦ inr (t, handle_all_calm parse_date s es h t)
  ],
)
