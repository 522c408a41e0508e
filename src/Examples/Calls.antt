-- ===== src/Examples/Calls.antt =====
-- Calls.
use quiteline.Base.{refl, codes, [], ◌∷◌, ◌≡◌, List, some, none, true, false, str_eq}
use quiteline.Wire.{Identity, Signal, offer, completed}
use quiteline.Calls.State.{Call, Env, Effect, idle, connected}
use quiteline.Calls.Cleanup.{cleanup_call}
use quiteline.Calls.Events.{handle_call_event}
use quiteline.Calls.Steps.{event, here, next, fresh}
use quiteline.Calls.Invariant.{Inv}
use quiteline.Calls.Reachable.{Reach-Inv}
use quiteline.Calls.Heard.{heard, hear_all}
use quiteline.Calls.EndsBoth.{logged, ends_both}
use quiteline.Examples.Data.{alice, room}

abbrev bob : Identity
bob = record alice { user_id = codes "bob"; display_name = codes "Bob" }

abbrev env : Env
env = record {
  identity = some alice;
  has_session = true;
  open_room = room;
  my_id = codes "alice";
  socket_open = true;
  now = codes "t";
  stamp = codes "12:00";
  playback_error = none;
  streaming_error = none;
}

-- Alice is offered a call by Bob.
abbrev offered : Signal
offered = record {
  kind = offer (codes "Bob");
  call_id = codes "c1";
  room_id = room;
  from_user_id = codes "bob";
  to_user_id = codes "alice";
}

Reach-Inv_example : Inv (handle_call_event env (codes "48000") offered fresh fresh)
Reach-Inv_example = Reach-Inv (next here (event env (codes "48000") offered))

-- A call under way, to Bob.
abbrev under_way : Call
under_way = record fresh {
  state = connected;
  started_at = codes "t0";
  duration = 3;
  active_call = codes "c1";
  active_peer = codes "bob";
  active_room = room;
  caller = codes "alice";
  audio_connected = true;
  has_stream = true;
}

abbrev far : Env
far = record env { identity = some bob; my_id = codes "bob" }

-- The same call, at Bob's.
abbrev under_way_at_bob : Call
under_way_at_bob = record under_way { active_peer = codes "alice"; duration = 2 }

ends_both_example :
    let ended = cleanup_call env true false under_way under_way in
    (es : List Effect) × (ended.out ≡ es)
    × (logged es ≡ completed ∷ [])
    × (ended.active_call ≡ [])
    × (ended.has_stream ≡ false)
    × ((hear_all far (codes "48000") (heard (codes "bob") es) under_way_at_bob).state ≡ idle)
    × ((hear_all far (codes "48000") (heard (codes "bob") es) under_way_at_bob).active_call ≡ [])
    × ((hear_all far (codes "48000") (heard (codes "bob") es) under_way_at_bob).has_stream ≡ false)
    × ((hear_all far (codes "48000") (heard (codes "bob") es) under_way_at_bob).out ≡ [])
unfolding str_eq
ends_both_example =
    ends_both env far alice (codes "48000") false under_way under_way under_way_at_bob refl refl
      refl refl refl refl refl refl
