-- ===== src/Rooms/Counting.antt =====
-- Unread messages, counted over the events that arrive.
-- (frontend/src/hooks/useRooms.ts, frontend/src/components/MessengerApp.tsx)
use quiteline.Base.{
  ◌≡◌, refl, sym, ◌∙◌, subst, Bool, true, false, not, ◌&&◌, List, [], ◌∷◌, map, Option, none, some,
  ℕ, ◌+◌, ◌≤◌, ℤ, Str, str_eq, str_eq_iff, str_eq_refl, truthy, if◌then◌else◌, arith, Bool-cases,
  inl, inr, All,
}
use quiteline.Js.Sort.{sort, place, earlier}
use quiteline.Wire.{
  Room, RealtimeEvent, message_read, message_created, typing, presence, profile_updated,
  chats_changed, rooms_changed, friends_changed, sessions_changed, session_revoked, signal,
}
use quiteline.Rooms.Activity.{Activity, patch_room, patch_room_activity, active_at}
use quiteline.Rooms.Unread.{
  rooms_of, times, total_unread, HasDistinctRooms, total_unread-sort, total_unread_patched,
}
use quiteline.Rooms.Events.{handle_all, on_rooms, handle_realtime_event-rooms}
use quiteline.Realtime.State.{Hub, Scene}
use quiteline.Realtime.Handle.{handle_realtime_event, arrival, was_read}

module _ (gt : Room → Room → Bool) (k : Str) where
  times-place :
      (r : Room) (rs : List Room)
      → times k (place gt r rs) ≡ (if str_eq r.room_id k then 1 else 0) + times k rs
  unfolding place
  times-place r [] = refl
  times-place r (q ∷ rs) = elim (Bool-cases (gt r q)) [
    | inl e ↦ rw e (omega (arith, times-place r rs))
    | inr e ↦ rw e refl
  ]

  times-sort : (rs : List Room) → times k (sort gt rs) ≡ times k rs
  unfolding sort
  times-sort [] = refl
  times-sort (r ∷ rs) = omega (arith, times-place r (sort gt rs), times-sort rs)

times-patched :
    (k j : Str) (o : Activity) (rs : List Room) → times k (map (patch_room j o) rs) ≡ times k rs
unfolding patch_room
times-patched k j o [] = refl
times-patched k j o (r ∷ rs) = ground (arith, times-patched k j o rs)

times_le : (k : Str) (rs : List Room) → HasDistinctRooms rs → times k rs ≤ 1
times_le k [] h = omega arith
times_le k (r ∷ rs) h = elim (Bool-cases (str_eq r.room_id k)) [
  | inl e ↦
      let none_else : times k rs ≡ 0 =
        subst (λ (j : Str). times j rs ≡ 0) ((str_eq_iff r.room_id k).0 e) h.0 in
      rw e (omega (arith, none_else))
  | inr e ↦ rw e (omega (arith, times_le k rs h.1))
]

distinct_of_times : (rs : List Room) → ((k : Str) → times k rs ≤ 1) → HasDistinctRooms rs
distinct_of_times [] h = tt
distinct_of_times (r ∷ rs) h = (
  ground (arith, h r.room_id, str_eq_refl r.room_id),
  distinct_of_times rs (λ k. omega (arith, h k)),
)

times-patch_room_activity :
    (parse_date : Str → Option ℤ) (k j : Str) (o : Activity) (rooms : Option (List Room))
    → times k (rooms_of (patch_room_activity parse_date j o rooms)) ≡ times k (rooms_of rooms)
unfolding patch_room_activity
times-patch_room_activity parse_date k j o none = refl
times-patch_room_activity parse_date k j o (some rooms) =
    times-sort (earlier (active_at parse_date)) k (map (patch_room j o) rooms)
    ∙ times-patched k j o rooms

total_unread-patch_room_activity :
    (parse_date : Str → Option ℤ) (j : Str) (o : Activity) (rooms : Option (List Room))
    → HasDistinctRooms (rooms_of rooms)
    → o.clear_unread ≡ false
    → total_unread (rooms_of (patch_room_activity parse_date j o rooms))
      ≡ total_unread (rooms_of rooms) + (if o.increment_unread then times j (rooms_of rooms) else 0)
unfolding patch_room_activity
total_unread-patch_room_activity parse_date j o none h c = ground arith
total_unread-patch_room_activity parse_date j o (some rooms) h c =
    total_unread-sort (earlier (active_at parse_date)) (map (patch_room j o) rooms)
    ∙ total_unread_patched j o rooms h
    ∙ rw c refl

-- Whether an event tells that the user has read a room.
abbrev pub is_own_read : Scene → RealtimeEvent → Bool
is_own_read s (message_read r u a) = str_eq u s.current_user
is_own_read s _ = false

-- What an event adds to the unread messages: one for a message of another user, in a room of the
-- list that is not open.
abbrev pub added : Scene → List Room → RealtimeEvent → ℕ
added s rooms (message_created r m u a) =
    if truthy s.current_user && (not (str_eq u s.current_user) && not (str_eq r s.active_room))
    then times r rooms
    else 0
added s rooms _ = 0

abbrev pub all_added : Scene → List Room → List RealtimeEvent → ℕ
all_added s rooms [] = 0
all_added s rooms (e ∷ es) = added s rooms e + all_added s rooms es

times_if :
    (k : Str) (b : Bool) (o p : Option (List Room))
    → times k (rooms_of p) ≡ times k (rooms_of o)
    → times k (rooms_of (if b then p else o)) ≡ times k (rooms_of o)
times_if k true o p e = e
times_if k false o p e = refl

module _ (parse_date : Str → Option ℤ) (s : Scene) where
  times-on_rooms :
      (k : Str) (e : RealtimeEvent) (o : Option (List Room))
      → times k (rooms_of (on_rooms parse_date s e o)) ≡ times k (rooms_of o)
  times-on_rooms k (typing u n p a) o = refl
  times-on_rooms k (presence u n p a q) o = refl
  times-on_rooms k (profile_updated u n a) o = refl
  times-on_rooms k (chats_changed r u a) o = refl
  times-on_rooms k (rooms_changed r u a) o = refl
  times-on_rooms k (friends_changed u a) o = refl
  times-on_rooms k (sessions_changed u a) o = refl
  times-on_rooms k (session_revoked u j a) o = refl
  times-on_rooms k (signal e) o = refl
  times-on_rooms k (message_read r u a) o =
      times_if k (truthy s.current_user && str_eq u s.current_user) o _
        (times-patch_room_activity parse_date k r was_read o)
  times-on_rooms k (message_created r m u a) o =
      times_if k (truthy s.current_user) o _
        (times-patch_room_activity parse_date k r (arrival s r u a) o)

  on_rooms-HasDistinctRooms :
      (e : RealtimeEvent) (o : Option (List Room))
      → HasDistinctRooms (rooms_of o)
      → HasDistinctRooms (rooms_of (on_rooms parse_date s e o))
  on_rooms-HasDistinctRooms e o h =
      distinct_of_times (rooms_of (on_rooms parse_date s e o))
        (λ k. omega (arith, times-on_rooms k e o, times_le k (rooms_of o) h))

  total_unread-on_rooms :
      (e : RealtimeEvent) (o : Option (List Room))
      → HasDistinctRooms (rooms_of o)
      → is_own_read s e ≡ false
      → total_unread (rooms_of (on_rooms parse_date s e o))
        ≡ total_unread (rooms_of o) + added s (rooms_of o) e
  total_unread-on_rooms (typing u n p a) o h d = omega arith
  total_unread-on_rooms (presence u n p a q) o h d = omega arith
  total_unread-on_rooms (profile_updated u n a) o h d = omega arith
  total_unread-on_rooms (chats_changed r u a) o h d = omega arith
  total_unread-on_rooms (rooms_changed r u a) o h d = omega arith
  total_unread-on_rooms (friends_changed u a) o h d = omega arith
  total_unread-on_rooms (sessions_changed u a) o h d = omega arith
  total_unread-on_rooms (session_revoked u k a) o h d = omega arith
  total_unread-on_rooms (signal e) o h d = omega arith
  total_unread-on_rooms (message_read r u a) o h d = ground (arith, d)
  total_unread-on_rooms (message_created r m u a) o h d =
      elim (Bool-cases (truthy s.current_user)) [
        | inr e ↦ rw e (omega arith)
        | inl e ↦ rw e (total_unread-patch_room_activity parse_date r (arrival s r u a) o h refl)
      ]

  added-on_rooms :
      (e f : RealtimeEvent) (o : Option (List Room))
      → added s (rooms_of (on_rooms parse_date s e o)) f ≡ added s (rooms_of o) f
  added-on_rooms e (typing u n p a) o = refl
  added-on_rooms e (presence u n p a q) o = refl
  added-on_rooms e (profile_updated u n a) o = refl
  added-on_rooms e (chats_changed r u a) o = refl
  added-on_rooms e (rooms_changed r u a) o = refl
  added-on_rooms e (friends_changed u a) o = refl
  added-on_rooms e (sessions_changed u a) o = refl
  added-on_rooms e (session_revoked u k a) o = refl
  added-on_rooms e (signal d) o = refl
  added-on_rooms e (message_read r u a) o = refl
  added-on_rooms e (message_created r m u a) o = rw (times-on_rooms r e o) refl

  all_added-on_rooms :
      (e : RealtimeEvent) (es : List RealtimeEvent) (o : Option (List Room))
      → all_added s (rooms_of (on_rooms parse_date s e o)) es ≡ all_added s (rooms_of o) es
  all_added-on_rooms e [] o = refl
  all_added-on_rooms e (f ∷ fs) o = omega (arith, added-on_rooms e f o, all_added-on_rooms e fs o)

  -- While the user reads no room, the unread messages of all rooms grow by one for each message of
  -- another user that arrives in a room of the list that is not open, and by nothing else.
  pub handle_all-total_unread :
      (es : List RealtimeEvent) (h : Hub)
      → HasDistinctRooms (rooms_of h.rooms)
      → All (λ e. is_own_read s e ≡ false) es
      → total_unread (rooms_of (handle_all parse_date s es h).rooms)
        ≡ total_unread (rooms_of h.rooms) + all_added s (rooms_of h.rooms) es
  unfolding handle_all
  handle_all-total_unread [] h d q = omega arith
  handle_all-total_unread (e ∷ es) h d q =
      let g = handle_realtime_event parse_date s e h in
      let same = handle_realtime_event-rooms parse_date s h e in
      let distinct : HasDistinctRooms (rooms_of g.rooms) =
        subst (λ (o : Option (List Room)). HasDistinctRooms (rooms_of o)) (sym same)
          (on_rooms-HasDistinctRooms e h.rooms d) in
      let rest = handle_all-total_unread es g distinct q.1 in
      let first : total_unread (rooms_of g.rooms)
          ≡ total_unread (rooms_of h.rooms) + added s (rooms_of h.rooms) e =
        rw same (total_unread-on_rooms e h.rooms d q.0) in
      let later : all_added s (rooms_of g.rooms) es ≡ all_added s (rooms_of h.rooms) es =
        rw same (all_added-on_rooms e es h.rooms) in
      rest ∙ omega (arith, first, later)
