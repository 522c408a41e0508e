-- ===== src/Rooms/Bag.antt =====
-- What the list of rooms is when its order is forgotten: a bag of rooms, and what the events that
-- arrive do to it. (frontend/src/hooks/useRooms.ts, frontend/src/components/MessengerApp.tsx)
use mathlib.Core.List.{Perm}
use mathlib.Core.List.Perm
use mathlib.Core.Quot
use mathlib.Core.Quot.{Quot, Quot-set}
use quiteline.Base.{
  ◌≡◌, refl, sym, ap, ◌∙◌, Bool, true, false, ◌&&◌, List, [], ◌∷◌, map, Option, none, some, ℤ, Str,
  str_eq, str_eq_iff, truthy, if◌then◌else◌, arith,
}
use quiteline.Js.Sort.{earlier}
use quiteline.Js.SortPerm.{sort-Perm}
use quiteline.Wire.{
  Room, RealtimeEvent, typing, presence, profile_updated, chats_changed, rooms_changed,
  friends_changed, sessions_changed, session_revoked, message_read, message_created, signal,
}
use quiteline.Rooms.Activity.{Activity, patch_room, patch_room_activity, active_at}
use quiteline.Rooms.Unread.{rooms_of}
use quiteline.Realtime.State.{Hub, Scene}
use quiteline.Realtime.Handle.{handle_realtime_event, arrival, was_read}
use quiteline.Rooms.Events.{on_rooms, handle_realtime_event-rooms, handle_all}

abbrev pub RoomBag : Type 0
RoomBag = Quot (Perm {A = Room})

abbrev pub bag : Option (List Room) → RoomBag
bag o = Quot.mk (rooms_of o)

pub Perm-map : (f : Room → Room) (xs ys : List Room) → Perm xs ys → Perm (map f xs) (map f ys)
Perm-map f xs ys p = Perm.map f p

-- Every room of a bag is changed, each for itself.
unfoldable pub bag_map : (Room → Room) → RoomBag → RoomBag
bag_map f = Quot.lift Quot-set (λ xs. Quot.mk (map f xs)) (λ xs ys p. Quot.sound (Perm.map f p))

-- What activity in a room is, with the order forgotten.
pub patch_room_activity-bag :
    (parse_date : Str → Option ℤ) (k : Str) (o : Activity) (rooms : Option (List Room))
    → bag (patch_room_activity parse_date k o rooms) ≡ bag_map (patch_room k o) (bag rooms)
unfolding patch_room_activity bag_map
patch_room_activity-bag parse_date k o none = refl
patch_room_activity-bag parse_date k o (some rooms) =
    Quot.sound (sort-Perm (earlier (active_at parse_date)) (map (patch_room k o) rooms))

-- What an event does to the bag of rooms.
abbrev pub on_bag : Scene → RealtimeEvent → RoomBag → RoomBag
on_bag s (message_created room_id message_id sender_id at) b =
    if truthy s.current_user
    then bag_map (patch_room room_id (arrival s room_id sender_id at)) b
    else b
on_bag s (message_read room_id user_id at) b =
    if truthy s.current_user && str_eq user_id s.current_user
    then bag_map (patch_room room_id was_read) b
    else b
on_bag s (typing u n p a) b = b
on_bag s (presence u n p a q) b = b
on_bag s (profile_updated u n a) b = b
on_bag s (chats_changed r u a) b = b
on_bag s (rooms_changed r u a) b = b
on_bag s (friends_changed u a) b = b
on_bag s (sessions_changed u a) b = b
on_bag s (session_revoked u k a) b = b
on_bag s (signal e) b = b

bag_if :
    (b : Bool) (o p : Option (List Room)) (x : RoomBag)
    → bag p ≡ x
    → bag (if b then p else o) ≡ (if b then x else bag o)
bag_if true o p x e = e
bag_if false o p x e = refl

on_rooms-on_bag :
    (parse_date : Str → Option ℤ) (s : Scene) (e : RealtimeEvent) (o : Option (List Room))
    → bag (on_rooms parse_date s e o) ≡ on_bag s e (bag o)
on_rooms-on_bag parse_date s (typing u n p a) o = refl
on_rooms-on_bag parse_date s (presence u n p a q) o = refl
on_rooms-on_bag parse_date s (profile_updated u n a) o = refl
on_rooms-on_bag parse_date s (chats_changed r u a) o = refl
on_rooms-on_bag parse_date s (rooms_changed r u a) o = refl
on_rooms-on_bag parse_date s (friends_changed u a) o = refl
on_rooms-on_bag parse_date s (sessions_changed u a) o = refl
on_rooms-on_bag parse_date s (session_revoked u k a) o = refl
on_rooms-on_bag parse_date s (signal e) o = refl
on_rooms-on_bag parse_date s (message_read r u a) o =
    bag_if (truthy s.current_user && str_eq u s.current_user) o _ _
      (patch_room_activity-bag parse_date r was_read o)
on_rooms-on_bag parse_date s (message_created r m u a) o =
    bag_if (truthy s.current_user) o _ _ (patch_room_activity-bag parse_date r (arrival s r u a) o)

abbrev pub all_on_bag : Scene → List RealtimeEvent → RoomBag → RoomBag
all_on_bag s [] b = b
all_on_bag s (e ∷ es) b = all_on_bag s es (on_bag s e b)

-- The list of rooms, sorted by every activity, is what the bag is that each event changes room by
-- room: which dates can be read, and how they are ordered, makes no difference but to the order.
pub handle_all-all_on_bag :
    (parse_date : Str → Option ℤ) (s : Scene) (es : List RealtimeEvent) (h : Hub)
    → bag (handle_all parse_date s es h).rooms ≡ all_on_bag s es (bag h.rooms)
unfolding handle_all
handle_all-all_on_bag parse_date s [] h = refl
handle_all-all_on_bag parse_date s (e ∷ es) h =
    handle_all-all_on_bag parse_date s es (handle_realtime_event parse_date s e h)
    ∙ ap (λ (o : Option (List Room)). all_on_bag s es (bag o))
        (handle_realtime_event-rooms parse_date s h e)
    ∙ ap (all_on_bag s es) (on_rooms-on_bag parse_date s e h.rooms)

bag_map_comm :
    (f g : Room → Room)
    → ((r : Room) → f (g r) ≡ g (f r))
    → (b : RoomBag) → bag_map f (bag_map g b) ≡ bag_map g (bag_map f b)
unfolding bag_map
bag_map_comm f g h = Quot.ind (λ b. Quot-set _ _) (λ xs. ap Quot.mk (maps xs))
  where
    maps : (xs : List Room) → map f (map g xs) ≡ map g (map f xs)
    maps [] = refl
    maps (x ∷ xs) =
        ap (λ (y : Room). y ∷ map f (map g xs)) (h x)
        ∙ ap (λ (ys : List Room). g (f x) ∷ ys) (maps xs)

patch_room_comm :
    (k j : Str) (o p : Activity) (r : Room)
    → str_eq k j ≡ false
    → patch_room k o (patch_room j p r) ≡ patch_room j p (patch_room k o r)
unfolding patch_room
patch_room_comm k j o p r h =
    ground (arith, str_eq_iff r.room_id k, str_eq_iff r.room_id j, str_eq_iff k j)

-- Messages in two rooms leave the same rooms with the same counts, whichever arrives first.
pub arrivals_comm :
    (parse_date : Str → Option ℤ) (s : Scene) (h : Hub) (r q m n u v a b : Str)
    → str_eq r q ≡ false
    → bag (handle_all parse_date s (message_created r m u a ∷ message_created q n v b ∷ []) h).rooms
      ≡ bag
          (handle_all parse_date s (message_created q n v b ∷ message_created r m u a ∷ []) h).rooms
arrivals_comm parse_date s h r q m n u v a b e =
    handle_all-all_on_bag parse_date s _ h
    ∙ both (truthy s.current_user)
    ∙ sym (handle_all-all_on_bag parse_date s _ h)
  where
    f : Room → Room
    f = patch_room r (arrival s r u a)

    g : Room → Room
    g = patch_room q (arrival s q v b)

    both :
        (c : Bool)
        → (if c
            then bag_map g (if c then bag_map f (bag h.rooms) else bag h.rooms)
            else (if c then bag_map f (bag h.rooms) else bag h.rooms))
          ≡ (if c
              then bag_map f (if c then bag_map g (bag h.rooms) else bag h.rooms)
              else (if c then bag_map g (bag h.rooms) else bag h.rooms))
    both true =
        bag_map_comm g f (λ x. sym (patch_room_comm r q (arrival s r u a) (arrival s q v b) x e))
          (bag h.rooms)
    both false = refl
