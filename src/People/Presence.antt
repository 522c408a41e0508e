-- ===== src/People/Presence.antt =====
-- What a client tells about itself, and what it takes over of its room's members.
-- (frontend/src/components/MessengerApp.tsx)
use quiteline.Base.{
  Bool, true, false, ◌&&◌, List, [], ◌∷◌, ◌++◌, map, Option, none, some, Str, truthy, if◌then◌else◌,
  codes,
}
use quiteline.Js.OrderedMap.{get}
use quiteline.Js.Spread.{set_all}
use quiteline.Wire.{Identity, Friend, online, offline, RealtimeEvent, presence}
use quiteline.Realtime.State.{Hub, Scene, Seen, publish}
use quiteline.Realtime.Handle.{send_to_user_raw, do_deed}

-- `presence[item.userId]?.status ?? 'offline'`, and `…?.lastSeenAt ?? item.lastSeenAt`.
abbrev pub seen_of : Option Seen → Identity → Seen
seen_of none m = record {
  display_name = m.display_name;
  status = offline;
  last_seen_at = m.last_seen_at;
}
seen_of (some s) m = record s { display_name = m.display_name }

-- The effect on new members' identities: `seen` is the presence that its closure has, `prev` the
-- present one.
unfoldable pub init_presence :
    List Identity → List (Str × Seen) → List (Str × Seen) → List (Str × Seen)
unfolding set_all get
init_presence members seen prev =
    set_all
      (set_all (map (λ (m : Identity). (m.user_id, seen_of (get m.user_id seen) m)) members) [])
      prev

abbrev pub tell_all : Scene → RealtimeEvent → List Friend → Hub → Hub
tell_all s event [] h = h
tell_all s event (f ∷ fs) h = tell_all s event fs (send_to_user_raw s f.user_id event h)

-- The effect that tells the accepted friends that the user is online: `connected` is
-- `liveStatus === 'connected'`.
unfoldable pub fan_out : Bool → Scene → List Friend → Hub → Hub
unfolding send_to_user_raw
fan_out connected s friends h = elim s.identity [
  | none ↦ h
  | some me ↦
      if connected
      then tell_all s (presence me.user_id me.display_name online s.now_text true) friends h
      else h
]

-- `sendRealtimeRaw` of an event that names no room: it goes to the open room.
unfoldable pub send_to_room : Scene → RealtimeEvent → Hub → Hub
send_to_room s event h =
    if s.socket_open && truthy s.active_room
    then do_deed (publish (codes "room:" ++ s.active_room) event) h
    else h

-- What a client tells when its page is closed.
unfoldable pub handle_close : Scene → List Friend → Hub → Hub
unfolding send_to_user_raw send_to_room
handle_close s friends h = elim s.identity [
  | none ↦ h
  | some me ↦
      let offline_event = presence me.user_id me.display_name offline s.now_text false in
      let told = tell_all s offline_event friends h in
      if truthy s.active_room then send_to_room s offline_event told else told
]
