-- ===== src/Session/Rooms.antt =====
-- The rooms that an account enters and leaves.
-- (frontend/src/components/MessengerApp.tsx, frontend/src/hooks/useRooms.ts)
use quiteline.Base.{
  Bool, false, [], ◌∷◌, Option, none, some, Str, truthy, if◌then◌else◌, or_str, or_else,
}
use quiteline.Js.OrderedMap.{get, set, delete}
use quiteline.Wire.{Room, Reply, ok, auth_error, error}
use quiteline.Api.Request.{Request}
use quiteline.Api.Chat.{create_room, leave_room}
use quiteline.Session.State.{App, chat, rooms, refetch_rooms, notice_error}
use quiteline.Session.Account.{
  do_app, persist_room_secrets, handle_auth_expired, handle_request_error,
}

-- `activeSecret`.
abbrev pub active_secret : App → Str
active_secret a = if truthy a.active_room then or_str (get a.active_room a.room_secrets) [] else []

-- The request of `createRoomMutation`; `trim` is `String.prototype.trim`, `private_name` the text
-- for a room without a name. None is the error that an account is required.
unfoldable pub request_room : (Str → Str) → Str → Str → Str → App → Option Request
request_room trim private_name name secret a = elim a.identity [
  | none ↦ none
  | some me ↦ elim a.session [
    | none ↦ none
    | some s ↦ some (
        create_room none (or_else (trim name) private_name) (me.user_id ∷ [])
          (if truthy (trim secret) then some (trim secret) else none) s.access_token)
  ]
]

-- The secret of a new room: the server's, else the one that was asked for, else a random one.
abbrev pub secret_of : Room → Str → Str → Str
secret_of room requested random = or_str room.room_secret (or_else requested random)

-- `onSuccess` of creating or importing a room, on the state that its closure has seen; the rooms'
-- dialog closes, and the URL changes.
unfoldable pub room_created : Bool → Room → Str → App → App → App
unfolding persist_room_secrets
room_created is_mobile room secret seen a =
    let kept = persist_room_secrets seen.session (set room.room_id secret seen.room_secrets) a in
    do_app refetch_rooms (record kept {
      active_room = room.room_id;
      highlighted = [];
      mobile_view = if is_mobile then chat else kept.mobile_view;
      sidebar_view = if is_mobile then kept.sidebar_view else chat;
    })

-- `leaveActiveRoom` after the system message: the request, if there is all that it needs.
unfoldable pub request_leave : App → Option Request
request_leave a = elim a.identity [
  | none ↦ none
  | some me ↦ elim a.session [
    | none ↦ none
    | some s ↦
        if truthy a.active_room
        then some (leave_room a.active_room me.user_id s.access_token)
        else none
  ]
]

-- And what its answer does, on the state that the closure has seen. (The flag that a room is being
-- left is not kept.)
unfoldable pub room_left : Reply {0} Unit → App → App → App
unfolding persist_room_secrets handle_request_error handle_auth_expired
room_left (ok u) seen a =
    let kept = persist_room_secrets seen.session (delete seen.active_room seen.room_secrets) a in
    do_app refetch_rooms (record kept {
      active_room = [];
      highlighted = [];
      pending = [];
      mobile_view = rooms;
      sidebar_view = rooms;
      actions_opened = false;
      leave_opened = false;
    })
room_left auth_error seen a = handle_auth_expired a
room_left (error e) seen a = do_app (notice_error e) a

unfoldable pub select_room : Bool → Room → App → App
select_room is_mobile room a = record a {
  active_room = room.room_id;
  highlighted = [];
  pending = [];
  mobile_view = if is_mobile then chat else a.mobile_view;
  sidebar_view = if is_mobile then a.sidebar_view else rooms;
}

unfoldable pub close_chat : App → App
close_chat a = record a {
  actions_opened = false;
  active_room = [];
  highlighted = [];
  pending = [];
  mobile_view = rooms;
  sidebar_view = rooms;
}
