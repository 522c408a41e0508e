-- ===== src/Examples/Places.antt =====
-- Addresses, people, rooms, notifications and the frame.
use quiteline.Base.{
  any, map, ◌≡◌, refl, codes, List, [], ◌∷◌, ◌++◌, some, none, Str, ◌⊎◌, ◌↔◌, true, false, arith,
  pos, str_eq,
}
use quiteline.Js.OrderedMap.{get}
use quiteline.Wire.{
  Friend, accepted, incoming, RealtimeEvent, message_created, presence, online, offline,
}
use quiteline.Api.Devices.{PushPreferences}
use quiteline.Session.State.{chat, rooms}
use quiteline.Session.Login.{apply_location}
use quiteline.Session.Direct.{direct_room_id}
use quiteline.Session.DirectRooms.{direct_room_id_iff}
use quiteline.Routes.Paths.{
  AppRouteOptions, build_app_path, app_route_from_path, sync_url, location_of,
}
use quiteline.Routes.UriRoundTrip.{is_paired}
use quiteline.Routes.PathRoundTrip.{app_route_from_path-build_app_path}
use quiteline.Routes.Reload.{no_params, sync_url-apply_location}
use quiteline.Realtime.State.{Seen, publish}
use quiteline.Rooms.Unread.{rooms_of, total_unread}
use quiteline.Rooms.Events.{handle_all}
use mathlib.Core.Quot
use quiteline.Js.Sort.{InOrder, earlier, sort}
use quiteline.Rooms.Activity.{active_at, patch_room_activity}
use quiteline.Rooms.Bag.{bag, arrivals_comm}
use quiteline.Rooms.Each.{room_after_all}
use quiteline.Rooms.Ordered.{is_activity, handle_all-room_after_all}
use quiteline.Rooms.Counting.{handle_all-total_unread}
use quiteline.People.Presence.{init_presence, fan_out, handle_close}
use quiteline.People.Known.{IsShownAs, get-init_presence, fan_out-handle_close}
use quiteline.Push.State.{Push, World, done, raised, denied, browser_error}
use quiteline.Push.Enable.{enable_push_notifications}
use quiteline.Push.Ends.{Ended, enable_push_notifications-Ended}
use quiteline.Shell.{Shell, press, move, let_go, run_pointer, IsWithin, run_pointer-IsWithin}
use quiteline.Examples.Data.{clock, room, alice}
use quiteline.Examples.Hub.{scene, two_rooms, hub}
use quiteline.Examples.Account.{app}

-- A room and a message with characters that are escaped: a slash, and a pair of surrogates.
abbrev link_of : AppRouteOptions
link_of = record { view = some chat; room_id = some (codes "a/b"); message_id = some (codes "m😀") }

app_route_from_path-build_app_path_example :
    (p : Str) × (build_app_path link_of ≡ some p) × (app_route_from_path p ≡ some link_of)
unfolding is_paired
app_route_from_path-build_app_path_example =
    app_route_from_path-build_app_path link_of (omega arith, refl) (omega arith, refl)

sync_url-apply_location_example :
    (o : AppRouteOptions) × (sync_url true false false (codes "a/b") (codes "m1") rooms ≡ some o)
    × (p : Str) × (build_app_path o ≡ some p)
    × (route : AppRouteOptions) × (app_route_from_path p ≡ some route)
    × ((apply_location (location_of no_params route) app).active_room ≡ codes "a/b")
    × ((apply_location (location_of no_params route) app).highlighted ≡ codes "m1")
unfolding is_paired
sync_url-apply_location_example =
    sync_url-apply_location false (codes "a/b") (codes "m1") rooms app refl refl (omega arith, refl)
      (omega arith, refl)

-- Messages in the second room and in one that is not in the list.
abbrev arrivals : List RealtimeEvent
arrivals =
    message_created (codes "q") (codes "m5") (codes "bob") (3 ∷ [])
    ∷ message_created (codes "z") (codes "m6") (codes "bob") (4 ∷ [])
    ∷ message_created (codes "q") (codes "m7") (codes "bob") (5 ∷ [])
    ∷ []

handle_all-room_after_all_example :
    (bag (handle_all clock scene arrivals hub).rooms
      ≡ Quot.mk (map (room_after_all scene arrivals) two_rooms))
    × ((any (is_activity scene) arrivals ≡ true)
          × InOrder
              (earlier (active_at clock))
              (rooms_of (handle_all clock scene arrivals hub).rooms)
        ⊎ (any (is_activity scene) arrivals ≡ false)
          × ((handle_all clock scene arrivals hub).rooms ≡ some two_rooms))
unfolding handle_all str_eq patch_room_activity sort
handle_all-room_after_all_example =
    handle_all-room_after_all clock scene arrivals hub (tt, (tt, tt))

arrivals_comm_example :
    bag
      (handle_all clock scene
        (message_created room (codes "m5") (codes "bob") (3 ∷ [])
          ∷ message_created (codes "q") (codes "m6") (codes "bob") (4 ∷ [])
          ∷ [])
        hub).rooms
    ≡ bag
        (handle_all clock scene
          (message_created (codes "q") (codes "m6") (codes "bob") (4 ∷ [])
            ∷ message_created room (codes "m5") (codes "bob") (3 ∷ [])
            ∷ [])
          hub).rooms
unfolding str_eq
arrivals_comm_example =
    arrivals_comm clock scene hub room (codes "q") (codes "m5") (codes "m6") (codes "bob")
      (codes "bob") (3 ∷ []) (4 ∷ []) refl

handle_all-total_unread_example :
    total_unread (rooms_of (handle_all clock scene arrivals hub).rooms) ≡ 4
unfolding str_eq
handle_all-total_unread_example =
    handle_all-total_unread clock scene arrivals hub (refl, (refl, tt)) (refl, (refl, (refl, tt)))

-- Alice has been seen online before.
abbrev seen_alice : Seen
seen_alice = record { display_name = codes "Al"; status = online; last_seen_at = 9 ∷ [] }

get-init_presence_example :
    IsShownAs
      ((codes "alice", seen_alice) ∷ [])
      alice
      (get (codes "alice") (init_presence (alice ∷ []) ((codes "alice", seen_alice) ∷ []) []))
unfolding get str_eq
get-init_presence_example =
    get-init_presence (codes "alice") (alice ∷ []) ((codes "alice", seen_alice) ∷ []) []

abbrev bob : Friend
bob = record {
  user_id = codes "bob";
  display_name = codes "Bob";
  status = accepted;
  direction = incoming;
  created_at = 1 ∷ [];
}

abbrev hello : RealtimeEvent
hello = presence (codes "alice") (codes "Alice") online (codes "t") true

abbrev bye : RealtimeEvent
bye = presence (codes "alice") (codes "Alice") offline (codes "t") false

fan_out-handle_close_example :
    (fan_out true scene (bob ∷ []) hub
      ≡ record hub { deeds = publish (codes "user:bob") hello ∷ [] })
    × (handle_close scene (bob ∷ []) hub ≡ record hub {
      deeds = publish (codes "user:bob") bye ∷ publish (codes "room:" ++ room) bye ∷ [];
    })
fan_out-handle_close_example = fan_out-handle_close scene alice (bob ∷ []) hub refl

abbrev preferences : PushPreferences
preferences = record { messages = true; chats = true; sessions = true; friends = false }

abbrev settings_off : Push
settings_off = record {
  info = some (record { enabled = true; public_key = codes "AAAA" });
  subscriptions = [];
  prefs = preferences;
  loading = false;
  feedback = none;
  deeds = [];
}

-- A browser whose push service fails twice.
abbrev browser : World
browser = record {
  has_service_worker = true;
  has_notification = true;
  looks_like_ios = false;
  is_ios_standalone = false;
  permission = done true;
  registered = done tt;
  has_push_manager = true;
  existing = done true;
  unsubscribed = done tt;
  first_subscribe = raised (browser_error (codes "AbortError") (codes "first"));
  existing_again = done false;
  unsubscribed_again = done tt;
  second_subscribe = raised (browser_error (codes "AbortError") (codes "second"));
  saved = raised denied;
  atob_message = [];
}

enable_push_notifications-Ended_example :
    Ended settings_off (enable_push_notifications browser settings_off)
enable_push_notifications-Ended_example = enable_push_notifications-Ended browser settings_off refl

abbrev shell : Shell
shell = record { width = pos 340; resize = none; listens = false }

run_pointer-IsWithin_example :
    ((run_pointer false (press (pos 10) ∷ move (pos 900) ∷ let_go ∷ []) shell).width ≡ pos 340)
    ⊎ IsWithin (run_pointer false (press (pos 10) ∷ move (pos 900) ∷ let_go ∷ []) shell).width
run_pointer-IsWithin_example =
    run_pointer-IsWithin false (press (pos 10) ∷ move (pos 900) ∷ let_go ∷ []) shell

direct_room_id_iff_example :
    (direct_room_id (codes "u1") (codes "u2") ≡ direct_room_id (codes "u2") (codes "u1")) ↔ (
      (codes "u1" ≡ codes "u2") × (codes "u2" ≡ codes "u1")
      ⊎ (codes "u1" ≡ codes "u1") × (codes "u2" ≡ codes "u2"))
direct_room_id_iff_example =
    direct_room_id_iff (codes "u1") (codes "u2") (codes "u2") (codes "u1") 2 refl refl refl refl
