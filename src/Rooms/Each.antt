-- ===== src/Rooms/Each.antt =====
-- What the events of a session leave of each room. (frontend/src/hooks/useRooms.ts,
-- frontend/src/components/MessengerApp.tsx)
use mathlib.Core.Quot
use mathlib.Core.Quot.{Quot-set}
use quiteline.Base.{
  ◌≡◌, refl, sym, ap, ◌∙◌, Bool, true, ◌&&◌, ◌||◌, List, [], ◌∷◌, map, Option, some, ◌+◌, ℤ, Str,
  str_eq, truthy, if◌then◌else◌, get_or, arith, Bool-cases, inl, inr,
}
use quiteline.Wire.{
  Room, RealtimeEvent, typing, presence, profile_updated, chats_changed, rooms_changed,
  friends_changed, sessions_changed, session_revoked, message_read, message_created, signal,
}
use quiteline.Rooms.Activity.{Activity, patch_room, patch_room_activity}
use quiteline.Rooms.Unread.{rooms_of}
use quiteline.Realtime.State.{Hub, Scene}
use quiteline.Realtime.Handle.{handle_realtime_event, arrival, was_read}
use quiteline.Rooms.Events.{on_rooms, handle_realtime_event-rooms, handle_all}
use quiteline.Rooms.Bag.{bag, bag_map, patch_room_activity-bag}

-- What an event leaves of a room. A message makes its room active at its time, and counts unless it
-- is the user's own or the room is open; when the user has read a room, nothing there is unread.
abbrev pub room_after : Scene → RealtimeEvent → Room → Room
room_after s (message_created room_id message_id sender_id at) room =
    if truthy s.current_user && str_eq room.room_id room_id
    then record room {
      last_message_at = some at;
      unread_count = some (
          if str_eq sender_id s.current_user || str_eq room_id s.active_room
          then get_or room.unread_count 0
          else 1 + get_or room.unread_count 0);
    }
    else room
room_after s (message_read room_id user_id at) room =
    if truthy s.current_user && (str_eq user_id s.current_user && str_eq room.room_id room_id)
    then record room { unread_count = some 0 }
    else room
room_after s _ room = room

abbrev pub room_after_all : Scene → List RealtimeEvent → Room → Room
room_after_all s [] room = room
room_after_all s (e ∷ es) room = room_after_all s es (room_after s e room)

map-same : (f : Room → Room) → ((r : Room) → f r ≡ r) → (rs : List Room) → map f rs ≡ rs
map-same f h [] = refl
map-same f h (r ∷ rs) = rw (h r) (ap (λ (z : List Room). r ∷ z) (map-same f h rs))

map-alike : (f g : Room → Room) → ((r : Room) → f r ≡ g r) → (rs : List Room) → map f rs ≡ map g rs
map-alike f g h [] = refl
map-alike f g h (r ∷ rs) = rw (h r) (ap (λ (z : List Room). g r ∷ z) (map-alike f g h rs))

arrived :
    (s : Scene) (r m u a : Str) (room : Room)
    → truthy s.current_user ≡ true
    → patch_room r (arrival s r u a) room ≡ room_after s (message_created r m u a) room
unfolding patch_room
arrived s r m u a room t = ground (arith, t)

was_read_after :
    (s : Scene) (r u a : Str) (room : Room)
    → truthy s.current_user ≡ true
    → str_eq u s.current_user ≡ true
    → patch_room r was_read room ≡ room_after s (message_read r u a) room
unfolding patch_room
was_read_after s r u a room t e = ground (arith, t, e)

bag_same :
    (f : Room → Room) (o : Option (List Room))
    → ((r : Room) → f r ≡ r)
    → bag o ≡ Quot.mk (map f (rooms_of o))
bag_same f o h = sym (ap (λ (rs : List Room). Quot.mk rs) (map-same f h (rooms_of o)))

bag_patched :
    (parse_date : Str → Option ℤ) (k : Str) (o : Activity) (f : Room → Room)
    → (rooms : Option (List Room)) → ((r : Room) → patch_room k o r ≡ f r)
    → bag (patch_room_activity parse_date k o rooms) ≡ Quot.mk (map f (rooms_of rooms))
unfolding bag_map
bag_patched parse_date k o f rooms h =
    patch_room_activity-bag parse_date k o rooms
    ∙ ap (λ (rs : List Room). Quot.mk rs) (map-alike (patch_room k o) f h (rooms_of rooms))

-- Each event leaves the bag of what it leaves of each room.
on_rooms-bag :
    (parse_date : Str → Option ℤ) (s : Scene) (e : RealtimeEvent) (o : Option (List Room))
    → bag (on_rooms parse_date s e o) ≡ Quot.mk (map (room_after s e) (rooms_of o))
on_rooms-bag parse_date s (typing u n p a) o = bag_same _ o (λ r. refl)
on_rooms-bag parse_date s (presence u n p a q) o = bag_same _ o (λ r. refl)
on_rooms-bag parse_date s (profile_updated u n a) o = bag_same _ o (λ r. refl)
on_rooms-bag parse_date s (chats_changed r u a) o = bag_same _ o (λ r. refl)
on_rooms-bag parse_date s (rooms_changed r u a) o = bag_same _ o (λ r. refl)
on_rooms-bag parse_date s (friends_changed u a) o = bag_same _ o (λ r. refl)
on_rooms-bag parse_date s (sessions_changed u a) o = bag_same _ o (λ r. refl)
on_rooms-bag parse_date s (session_revoked u k a) o = bag_same _ o (λ r. refl)
on_rooms-bag parse_date s (signal e) o = bag_same _ o (λ r. refl)
on_rooms-bag parse_date s (message_created k m u a) o = elim (Bool-cases (truthy s.current_user)) [
  | inl t ↦
      ap (λ (b : Bool). bag (if b then patch_room_activity parse_date k (arrival s k u a) o else o))
        t
      ∙ bag_patched parse_date k (arrival s k u a) _ o (λ r. arrived s k m u a r t)
  | inr t ↦
      ap (λ (b : Bool). bag (if b then patch_room_activity parse_date k (arrival s k u a) o else o))
        t
      ∙ bag_same (room_after s (message_created k m u a)) o (λ r. rw t refl)
]
on_rooms-bag parse_date s (message_read k u a) o =
    elim (Bool-cases (truthy s.current_user && str_eq u s.current_user)) [
      | inl t ↦
          ap (λ (b : Bool). bag (if b then patch_room_activity parse_date k was_read o else o)) t
          ∙ bag_patched parse_date k was_read _ o
              (λ r. was_read_after s k u a r (ground (arith, t)) (ground (arith, t)))
      | inr t ↦
          ap (λ (b : Bool). bag (if b then patch_room_activity parse_date k was_read o else o)) t
          ∙ bag_same (room_after s (message_read k u a)) o (λ r. ground (arith, t))
    ]

map_twice : (f g : Room → Room) (rs : List Room) → map f (map g rs) ≡ map (λ r. f (g r)) rs
map_twice f g [] = refl
map_twice f g (r ∷ rs) = ap (λ (z : List Room). f (g r) ∷ z) (map_twice f g rs)

pub handle_all-bag :
    (parse_date : Str → Option ℤ) (s : Scene) (es : List RealtimeEvent) (h : Hub)
    → bag (handle_all parse_date s es h).rooms
      ≡ Quot.mk (map (room_after_all s es) (rooms_of h.rooms))
unfolding handle_all bag_map
handle_all-bag parse_date s [] h = bag_same (λ r. r) h.rooms (λ r. refl)
handle_all-bag parse_date s (e ∷ es) h =
    let next = handle_realtime_event parse_date s e h in
    handle_all-bag parse_date s es next
    ∙ ap (bag_map (room_after_all s es)) (
        ap bag (handle_realtime_event-rooms parse_date s h e) ∙ on_rooms-bag parse_date s e h.rooms)
    ∙ ap (λ (rs : List Room). Quot.mk rs)
        (map_twice (room_after_all s es) (room_after s e) (rooms_of h.rooms))
