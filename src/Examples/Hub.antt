-- ===== src/Examples/Hub.antt =====
-- The socket, the rooms and the requests.
use quiteline.Base.{
  ℕ, ◌*◌, ◌≤◌, ◌+◌, refl, codes, List, [], ◌∷◌, ◌≡◌, some, none, Str, ◌⊎◌, true, false, str_eq,
  arith,
}
use quiteline.Js.OrderedMap.{get}
use quiteline.Wire.{Room, typing, light, missed}
use quiteline.Realtime.State.{Hub, Scene}
use quiteline.Realtime.Socket.{
  Link, Socket, here, next, rooms_change, unlinked, on_close, reconnect, is_current, topics_of,
  close_socket, room_changed, disconnected,
}
use quiteline.Realtime.Sockets.{one_socket, IsTidy, lost_socket}
use quiteline.Realtime.Handle.{handle_realtime_event, run_ticks}
use quiteline.Realtime.Typing.{run_ticks-typing}
use quiteline.Api.Request.{url, encode_from, escape}
use quiteline.Api.All.{Inputs}
use quiteline.Api.Devices.{revoke_account_session}
use quiteline.Api.Urls.{same_delimiters, count}
use quiteline.Examples.Data.{clock, room, alice}

abbrev pub scene : Scene
scene = record {
  identity = some alice;
  current_user = codes "alice";
  active_room = room;
  session_id = some (codes "s1");
  socket_open = true;
  now = 1000;
  now_text = codes "t";
}

abbrev pub two_rooms : List Room
two_rooms =
    record {
      room_id = room;
      name = codes "one";
      members = [];
      member_profiles = none;
      room_secret = none;
      last_message_at = none;
      unread_count = some 2;
      created_at = 1 ∷ [];
    }
    ∷ record {
      room_id = codes "q";
      name = codes "two";
      members = [];
      member_profiles = none;
      room_secret = none;
      last_message_at = none;
      unread_count = none;
      created_at = 2 ∷ [];
    }
    ∷ []

abbrev pub hub : Hub
hub = record {
  typing_users = [];
  presence = [];
  avatar_version = 0;
  rooms = some two_rooms;
  live = [];
  deeds = [];
}

one_socket_example :
    IsTidy
      (room_changed (some (codes "alice")) room unlinked).current
      (room_changed (some (codes "alice")) room unlinked).sockets
one_socket_example = one_socket (next here (rooms_change (some (codes "alice")) room))

abbrev socket : Socket
socket = record { id = 0; room = room; topics = codes "user:alice" ∷ []; is_closed = false }

abbrev linked : Link
linked = record unlinked { current = some 0; sockets = socket ∷ [] }

lost_socket_example :
    (is_current linked.current socket.id ≡ false)
      × (on_close (codes "token") socket linked ≡ linked)
    ⊎ (is_current linked.current socket.id ≡ true)
      × ((on_close (codes "token") socket linked).timer ≡ some room)
      × ((on_close (codes "token") socket linked).live_status ≡ disconnected)
      × ((reconnect (some (codes "alice")) room (on_close (codes "token") socket linked)).current
          ≡ some 1)
      × ((reconnect (some (codes "alice")) room (on_close (codes "token") socket linked)).timer
          ≡ none)
      × ((reconnect (some (codes "alice")) room (on_close (codes "token") socket linked)).sockets
          ≡ record {
            id = 1;
            room = room;
            topics = topics_of (codes "alice") room;
            is_closed = false;
          }
            ∷ close_socket linked.current linked.sockets)
lost_socket_example = lost_socket (codes "token") (codes "alice") socket linked refl refl

-- Bob types, and the interval ticks 400 milliseconds later for the first time.
abbrev bob_types : Hub
bob_types =
    handle_realtime_event clock scene (typing (codes "bob") (codes "Bob") true (codes "t")) hub

run_ticks-typing_example :
    (get (codes "bob") (run_ticks 1400 3 bob_types).typing_users
      ≡ some (record { display_name = codes "Bob"; until = 4500 }))
    × ((m : ℕ) × (1400 + m * 1000 ≤ 5500)
        × (get (codes "bob") (run_ticks 1400 m bob_types).typing_users ≡ none))
unfolding str_eq
run_ticks-typing_example =
    run_ticks-typing clock scene (codes "bob") (codes "Bob") (codes "t") (codes "bob") true 1400 3
      hub refl refl (omega arith) (omega arith) tt

abbrev inputs : Str → Inputs
inputs s = record {
  token = codes "token";
  first = s;
  second = s;
  third = s;
  fourth = s;
  fifth = s;
  sixth = s;
  letter = b'x';
  words = [];
  bytes = [];
  number = 1;
  theme = light;
  outcome = missed;
  accept = true;
  preferences = record { messages = true; chats = true; sessions = true; friends = true };
}

-- The request that ends a session whose id has a slash.
same_delimiters_example :
    count b'/' (codes "/v1/me/sessions/a%2Fb") ≡ count b'/' (codes "/v1/me/sessions/a")
unfolding url encode_from escape
same_delimiters_example =
    same_delimiters b'/' (inputs (codes "a/b")) (inputs (codes "a")) 9
      (revoke_account_session (codes "token") (codes "a/b"))
      (revoke_account_session (codes "token") (codes "a")) (codes "/v1/me/sessions/a%2Fb")
      (codes "/v1/me/sessions/a") refl refl refl refl refl refl
