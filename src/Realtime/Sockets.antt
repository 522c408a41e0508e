-- ===== src/Realtime/Sockets.antt =====
-- How many sockets are open. (frontend/src/components/MessengerApp.tsx)
use quiteline.Base.{
  ◌≡◌, refl, true, false, ◌||◌, List, [], ◌∷◌, length, Option, none, some, ℕ, Str, truthy, arith,
  All, Bool-cases, inl, inr, ◌⊎◌,
}
use quiteline.Realtime.Socket.{
  Link, Socket, Step, Reach, here, next, rooms_change, opens, fails, closes, timer_fires, unmounts,
  unlinked, is_current, close_socket, connect_ws, on_open, on_error, on_close, reconnect,
  disconnect_ws, room_changed, topics_of, disconnected,
}

-- Every socket but the newest has been closed, and so has the newest unless it is the current one.
abbrev pub IsClosed : Socket → Type 0
IsClosed k = k.is_closed ≡ true

abbrev pub IsTidy : Option ℕ → List Socket → Type 0
IsTidy current [] = Unit
IsTidy current (k ∷ ks) = ((k.is_closed || is_current current k.id) ≡ true) × All IsClosed ks

close_socket-IsClosed :
    (c : Option ℕ) (ks : List Socket) → All IsClosed ks → All IsClosed (close_socket c ks)
unfolding close_socket
close_socket-IsClosed c [] h = tt
close_socket-IsClosed c (k ∷ ks) h = (ground arith, close_socket-IsClosed c ks h.1)

close_socket-All :
    (c : Option ℕ) (ks : List Socket) → IsTidy c ks → All IsClosed (close_socket c ks)
unfolding close_socket
close_socket-All c [] h = tt
close_socket-All c (k ∷ ks) h = (ground arith, close_socket-IsClosed c ks h.1)

IsTidy-of_closed : (c : Option ℕ) (ks : List Socket) → All IsClosed ks → IsTidy c ks
IsTidy-of_closed c [] h = tt
IsTidy-of_closed c (k ∷ ks) h = (rw h.0 refl, h.1)

connect_ws-IsTidy :
    (user : Option Str) (room : Str) (l : Link)
    → IsTidy l.current l.sockets
    → IsTidy (connect_ws user room l).current (connect_ws user room l).sockets
unfolding connect_ws
connect_ws-IsTidy none room l h = h
connect_ws-IsTidy (some user) room l h = elim (Bool-cases (truthy user)) [
  | inl e ↦ rw e (ground arith, close_socket-All l.current l.sockets h)
  | inr e ↦ rw e h
]

disconnect_ws-IsTidy :
    (l : Link)
    → IsTidy l.current l.sockets
    → IsTidy (disconnect_ws l).current (disconnect_ws l).sockets
unfolding disconnect_ws
disconnect_ws-IsTidy l h =
    IsTidy-of_closed none (close_socket l.current l.sockets)
      (close_socket-All l.current l.sockets h)

step-IsTidy : {l m : Link} → Step l m → IsTidy l.current l.sockets → IsTidy m.current m.sockets
unfolding on_open on_error on_close reconnect room_changed
step-IsTidy {l} (rooms_change user room) h =
    connect_ws-IsTidy user room (disconnect_ws l) (disconnect_ws-IsTidy l h)
step-IsTidy opens h = h
step-IsTidy {l} (fails id) h = elim (Bool-cases (is_current l.current id)) [
  | inl e ↦ rw e h
  | inr e ↦ rw e h
]
step-IsTidy {l} (closes token k) h = elim (Bool-cases (is_current l.current k.id)) [
  | inl e ↦ rw e h
  | inr e ↦ rw e h
]
step-IsTidy {l} (timer_fires user room e) h = connect_ws-IsTidy user room l h
step-IsTidy {l} unmounts h = disconnect_ws-IsTidy l h

-- However often rooms change, sockets open, fail and close and the timer goes off, a client has
-- closed every socket that it made but at most the newest, and that one only if it is the current.
pub one_socket : {l : Link} → Reach unlinked l → IsTidy l.current l.sockets
one_socket here = tt
one_socket (next r s) = step-IsTidy s (one_socket r)

-- When the current socket closes and its closure has an access token, a timer waits to open its room
-- again; the socket that this timer makes for the user has the room's topics and becomes the
-- current one, and no timer is left. Any other socket's closing changes nothing.
pub lost_socket :
    (token user : Str) (k : Socket) (l : Link)
    → truthy token ≡ true
    → truthy user ≡ true
    → (is_current l.current k.id ≡ false) × (on_close token k l ≡ l)
      ⊎ (is_current l.current k.id ≡ true)
        × ((on_close token k l).timer ≡ some k.room)
        × ((on_close token k l).live_status ≡ disconnected)
        × ((reconnect (some user) k.room (on_close token k l)).current ≡ some (length l.sockets))
        × ((reconnect (some user) k.room (on_close token k l)).timer ≡ none)
        × ((reconnect (some user) k.room (on_close token k l)).sockets
            ≡ record {
              id = length l.sockets;
              room = k.room;
              topics = topics_of user k.room;
              is_closed = false;
            }
              ∷ close_socket l.current l.sockets)
unfolding on_close reconnect connect_ws
lost_socket token user k l t u = elim (Bool-cases (is_current l.current k.id)) [
  | inl e ↦ inr (e, rw (e, t) refl, rw e refl, rw (e, u) refl, rw (e, u) refl, rw (e, u) refl)
  | inr e ↦ inl (e, rw e refl)
]
