-- ===== src/Realtime/Handle.antt =====
-- The handlers of what arrives. (frontend/src/components/MessengerApp.tsx)
use quiteline.Base.{
  zero, suc, ◌*◌, Bool, true, false, ◌&&◌, not, [], ◌∷◌, ◌++◌, Option, none, some, ℕ, ◌+◌, ℤ, Str,
  str_eq, truthy, ltb, if◌then◌else◌, keep, codes,
}
use quiteline.Js.OrderedMap.{get, set}
use quiteline.Wire.{
  Presence, online, offline, EncryptedMessage, RealtimeEvent, typing, presence, profile_updated,
  chats_changed, rooms_changed, friends_changed, sessions_changed, session_revoked, message_read,
  message_created, signal,
}
use quiteline.Rooms.Activity.{Activity, patch_room_activity}
use quiteline.Messages.Sending.{push_live}
use quiteline.Realtime.State.{
  Hub, Scene, Typing, Seen, Deed, refetch, invalidate, publish, expire, call_event, chat_rooms,
  friends, account_sessions, chat_identities, chat_messages,
}

abbrev pub do_deed : Deed → Hub → Hub
do_deed d h = record h { deeds = h.deeds ++ d ∷ [] }

-- `sendToUserRaw`.
unfoldable pub send_to_user_raw : Scene → Str → RealtimeEvent → Hub → Hub
send_to_user_raw s target event h =
    if s.socket_open && truthy target
    then do_deed (publish (codes "user:" ++ target) event) h
    else h

-- `o === s` where `o` may be missing.
abbrev pub is_str : Option Str → Str → Bool
is_str none s = false
is_str (some t) s = str_eq t s

abbrev pub patch_rooms : (Str → Option ℤ) → Str → Activity → Hub → Hub
patch_rooms parse_date room_id options h = record h {
  rooms = patch_room_activity parse_date room_id options h.rooms;
}

unfoldable pub on_typing : Scene → Str → Str → Bool → Hub → Hub
on_typing s user_id display_name is_typing h =
    if str_eq user_id s.current_user then h else record h {
      typing_users =
          set user_id
            (record { display_name = display_name; until = if is_typing then s.now + 3500 else 0 })
            h.typing_users;
    }

-- The answer to a presence that asks for one.
abbrev pub echo_presence : Scene → Str → Hub → Hub
echo_presence s user_id h = elim s.identity [
  | none ↦ h
  | some me ↦
      send_to_user_raw s user_id (presence me.user_id me.display_name online s.now_text false) h
]

unfoldable pub on_presence : Scene → Str → Str → Presence → Str → Bool → Hub → Hub
unfolding send_to_user_raw
on_presence s user_id display_name status last_seen_at request_echo h =
    let seen = record h {
      presence =
          set user_id
            (record { display_name = display_name; status = status; last_seen_at = last_seen_at })
            h.presence;
    } in
    if str_eq user_id s.current_user
    then h
    else if request_echo
    then echo_presence s user_id seen
    else seen

-- A user's presence under a new name.
abbrev pub renamed : Scene → Str → Option Seen → Seen
renamed s display_name none = record {
  display_name = display_name;
  status = offline;
  last_seen_at = s.now_text;
}
renamed s display_name (some p) = record p { display_name = display_name }

unfoldable pub on_profile_updated : Scene → Str → Str → Hub → Hub
on_profile_updated s user_id display_name h =
    if str_eq user_id s.current_user
    then h
    else do_deed (invalidate chat_rooms) (record h {
      presence = set user_id (renamed s display_name (get user_id h.presence)) h.presence;
      avatar_version = s.now;
    })

unfoldable pub on_rooms_changed : Scene → Option Str → Hub → Hub
on_rooms_changed s none h = do_deed (refetch chat_rooms) h
on_rooms_changed s (some room_id) h =
    let asked = do_deed (refetch chat_rooms) h in
    if truthy room_id && str_eq room_id s.active_room
    then do_deed (refetch (chat_identities room_id)) asked
    else asked

unfoldable pub on_session_revoked : Scene → Option Str → Hub → Hub
on_session_revoked s none h = do_deed (invalidate account_sessions) h
on_session_revoked s (some session_id) h =
    if truthy session_id && is_str s.session_id session_id
    then do_deed expire h
    else do_deed (invalidate account_sessions) h

-- What a message's arrival is to the list of rooms.
abbrev pub arrival : Scene → Str → Str → Str → Activity
arrival s room_id sender_id at = record {
  at = some at;
  increment_unread = not (str_eq sender_id s.current_user) && not (str_eq room_id s.active_room);
  clear_unread = false;
}

-- What the user's own reading is to it.
abbrev pub was_read : Activity
was_read = record { at = none; increment_unread = false; clear_unread = true }

unfoldable pub on_message_read : (Str → Option ℤ) → Scene → Str → Str → Hub → Hub
on_message_read parse_date s room_id user_id h =
    if str_eq user_id s.current_user
    then patch_rooms parse_date room_id was_read h
    else if str_eq room_id s.active_room
    then do_deed (refetch (chat_messages room_id)) h
    else h

-- `event.fromUserId`, which the events of calls have.
abbrev pub from_user : RealtimeEvent → Option Str
from_user (signal e) = some e.from_user_id
from_user _ = none

unfoldable pub dispatch : (Str → Option ℤ) → Scene → RealtimeEvent → Hub → Hub
unfolding on_typing on_presence on_profile_updated on_rooms_changed on_session_revoked
    on_message_read
dispatch parse_date s (typing user_id name is_typing at) h = on_typing s user_id name is_typing h
dispatch parse_date s (presence user_id name status seen_at echo) h =
    on_presence s user_id name status seen_at echo h
dispatch parse_date s (profile_updated user_id name avatar) h = on_profile_updated s user_id name h
dispatch parse_date s (chats_changed room_id user_id at) h = on_rooms_changed s room_id h
dispatch parse_date s (rooms_changed room_id user_id at) h = on_rooms_changed s room_id h
dispatch parse_date s (friends_changed user_id at) h = do_deed (invalidate friends) h
dispatch parse_date s (sessions_changed user_id at) h = do_deed (invalidate account_sessions) h
dispatch parse_date s (session_revoked user_id session_id at) h = on_session_revoked s session_id h
dispatch parse_date s (message_read room_id user_id at) h =
    on_message_read parse_date s room_id user_id h
dispatch parse_date s (message_created room_id message_id sender_id at) h =
    patch_rooms parse_date room_id (arrival s room_id sender_id at) h
dispatch parse_date s (signal e) h = do_deed (call_event e) h

unfoldable pub handle_realtime_event : (Str → Option ℤ) → Scene → RealtimeEvent → Hub → Hub
unfolding dispatch
handle_realtime_event parse_date s event h =
    if not (truthy s.current_user)
    then h
    else if is_str (from_user event) s.current_user
    then h
    else dispatch parse_date s event h

-- What a frame carries: an event, or a message.
pub data Incoming : Type 0 where
  an_event : RealtimeEvent → Incoming
  a_message : EncryptedMessage → Incoming

unfoldable pub handle_incoming_data : (Str → Option ℤ) → Scene → Incoming → Hub → Hub
unfolding handle_realtime_event push_live
handle_incoming_data parse_date s (an_event e) h = handle_realtime_event parse_date s e h
handle_incoming_data parse_date s (a_message msg) h =
    patch_rooms parse_date msg.room_id (arrival s msg.room_id msg.sender_id msg.created_at)
      (record h { live = push_live msg h.live })

-- The interval that drops the typing users whose time is over.
unfoldable pub expire_typing : ℕ → Hub → Hub
expire_typing now h = record h {
  typing_users = keep (λ (u : Str × Typing). ltb now u.1.until) h.typing_users;
}

-- The interval: ticks each 1000 milliseconds, the first at a time, and so many more.
unfoldable pub run_ticks : ℕ → ℕ → Hub → Hub
unfolding expire_typing
run_ticks first zero h = expire_typing first h
run_ticks first (suc n) h = expire_typing (first + suc n * 1000) (run_ticks first n h)
