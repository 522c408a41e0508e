-- ===== src/Rooms/Activity.antt =====
-- What happens in a room, in the list of rooms. (frontend/src/hooks/useRooms.ts)
use quiteline.Base.{
  Bool, List, map, Option, none, some, ◌+◌, ℤ, Str, str_eq, if◌then◌else◌, or_str, get_or,
}
use quiteline.Js.Sort.{sort, earlier}
use quiteline.Wire.{Room}

-- The options of `patchRoomActivity`.
pub record Activity : Type 0 where
  pub at : Option Str
  pub increment_unread : Bool
  pub clear_unread : Bool

-- `options.at ?? room.lastMessageAt`.
abbrev pub last_at : Option Str → Option Str → Option Str
last_at none old = old
last_at (some at) old = some at

unfoldable pub patch_room : Str → Activity → Room → Room
patch_room room_id options room =
    if str_eq room.room_id room_id
    then record room {
      last_message_at = last_at options.at room.last_message_at;
      unread_count = some (
          if options.clear_unread
          then 0
          else get_or room.unread_count 0 + (if options.increment_unread then 1 else 0));
    }
    else room

-- `Date.parse(room.lastMessageAt || room.createdAt)`.
abbrev pub active_at : (Str → Option ℤ) → Room → Option ℤ
active_at parse_date room = parse_date (or_str room.last_message_at room.created_at)

-- `patchRoomActivity`, on what the query's cache holds.
unfoldable pub patch_room_activity :
    (Str → Option ℤ) → Str → Activity → Option (List Room) → Option (List Room)
unfolding patch_room
patch_room_activity parse_date room_id options none = none
patch_room_activity parse_date room_id options (some rooms) =
    some (sort (earlier (active_at parse_date)) (map (patch_room room_id options) rooms))
