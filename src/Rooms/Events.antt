-- ===== src/Rooms/Events.antt =====
-- What the events that arrive do to the list of rooms.
-- (frontend/src/hooks/useRooms.ts, frontend/src/components/MessengerApp.tsx)
use quiteline.Base.{
  ◌≡◌, Bool, ◌&&◌, List, [], ◌∷◌, Option, ℤ, Str, str_eq, truthy, if◌then◌else◌, arith,
}
use quiteline.Wire.{
  Room, RealtimeEvent, typing, presence, profile_updated, chats_changed, rooms_changed,
  friends_changed, sessions_changed, session_revoked, message_read, message_created, signal,
  Presence,
}
use quiteline.Rooms.Activity.{patch_room_activity}
use quiteline.Realtime.State.{Hub, Scene}
use quiteline.Realtime.Handle.{
  handle_realtime_event, dispatch, on_typing, on_presence, on_profile_updated, on_rooms_changed,
  on_session_revoked, on_message_read, send_to_user_raw, arrival, was_read,
}

-- What an event does to the list of rooms.
abbrev pub on_rooms :
    (Str → Option ℤ) → Scene → RealtimeEvent → Option (List Room) → Option (List Room)
on_rooms parse_date s (message_created room_id message_id sender_id at) o =
    if truthy s.current_user
    then patch_room_activity parse_date room_id (arrival s room_id sender_id at) o
    else o
on_rooms parse_date s (message_read room_id user_id at) o =
    if truthy s.current_user && str_eq user_id s.current_user
    then patch_room_activity parse_date room_id was_read o
    else o
on_rooms parse_date s _ o = o

-- A handler that leaves the rooms alone leaves the bag alone.
abbrev LeavesRooms : Hub → Hub → Type 0
LeavesRooms h g = g.rooms ≡ h.rooms

module _ (parse_date : Str → Option ℤ) (s : Scene) (h : Hub) where
  on_typing-LeavesRooms : (u n : Str) (p : Bool) → LeavesRooms h (on_typing s u n p h)
  unfolding on_typing
  on_typing-LeavesRooms u n p = ground arith

  on_presence-LeavesRooms :
      (u n : Str) (p : Presence) (a : Str) (q : Bool) → LeavesRooms h (on_presence s u n p a q h)
  unfolding on_presence send_to_user_raw
  on_presence-LeavesRooms u n p a q = ground arith

  on_profile_updated-LeavesRooms : (u n : Str) → LeavesRooms h (on_profile_updated s u n h)
  unfolding on_profile_updated
  on_profile_updated-LeavesRooms u n = ground arith

  on_rooms_changed-LeavesRooms : (r : Option Str) → LeavesRooms h (on_rooms_changed s r h)
  unfolding on_rooms_changed
  on_rooms_changed-LeavesRooms r = ground arith

  on_session_revoked-LeavesRooms : (k : Option Str) → LeavesRooms h (on_session_revoked s k h)
  unfolding on_session_revoked
  on_session_revoked-LeavesRooms k = ground arith

  pub handle_realtime_event-rooms :
      (e : RealtimeEvent)
      → (handle_realtime_event parse_date s e h).rooms ≡ on_rooms parse_date s e h.rooms
  unfolding handle_realtime_event dispatch
  handle_realtime_event-rooms (typing u n p a) = ground (arith, on_typing-LeavesRooms u n p)
  handle_realtime_event-rooms (presence u n p a q) =
      ground (arith, on_presence-LeavesRooms u n p a q)
  handle_realtime_event-rooms (profile_updated u n a) =
      ground (arith, on_profile_updated-LeavesRooms u n)
  handle_realtime_event-rooms (chats_changed r u a) = ground (arith, on_rooms_changed-LeavesRooms r)
  handle_realtime_event-rooms (rooms_changed r u a) = ground (arith, on_rooms_changed-LeavesRooms r)
  handle_realtime_event-rooms (friends_changed u a) = ground arith
  handle_realtime_event-rooms (sessions_changed u a) = ground arith
  handle_realtime_event-rooms (session_revoked u k a) =
      ground (arith, on_session_revoked-LeavesRooms k)
  handle_realtime_event-rooms (signal e) = ground arith
  handle_realtime_event-rooms (message_read r u a) = unfold on_message_read in ground arith
  handle_realtime_event-rooms (message_created r m u a) = ground arith

-- Events that arrive one after the other, in one scene.
unfoldable pub handle_all : (Str → Option ℤ) → Scene → List RealtimeEvent → Hub → Hub
unfolding handle_realtime_event
handle_all parse_date s [] h = h
handle_all parse_date s (e ∷ es) h =
    handle_all parse_date s es (handle_realtime_event parse_date s e h)
