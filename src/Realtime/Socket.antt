-- ===== src/Realtime/Socket.antt =====
-- The socket and how it is opened again. (frontend/src/components/MessengerApp.tsx)
use quiteline.Base.{
  Bool, true, false, List, [], ◌∷◌, ◌++◌, map, length, Option, none, some, ℕ, Str, truthy, ◌==◌,
  if◌then◌else◌, codes, ◌≡◌,
}

pub data LiveStatus : Type 0 where
  connecting connected disconnected : LiveStatus

-- A `WebSocket`: its room and its topics, and whether `close` has been called on it.
pub record Socket : Type 0 where
  pub id : ℕ
  pub room : Str
  pub topics : List Str
  pub is_closed : Bool

-- `wsRef`, `wsReconnectTimerRef` with the room that its timer opens, the status, and every socket
-- that was ever made, the latest first.
pub record Link : Type 0 where
  pub current : Option ℕ
  pub timer : Option Str
  pub live_status : LiveStatus
  pub sockets : List Socket

abbrev pub unlinked : Link
unlinked = record { current = none; timer = none; live_status = disconnected; sockets = [] }

abbrev pub is_current : Option ℕ → ℕ → Bool
is_current none id = false
is_current (some c) id = c == id

-- `previousWS?.close()`.
unfoldable pub close_socket : Option ℕ → List Socket → List Socket
close_socket current sockets =
    map (λ k. if is_current current k.id then record k { is_closed = true } else k) sockets

-- The topics that the URL names.
abbrev pub topics_of : Str → Str → List Str
topics_of user room =
    (codes "user:" ++ user) ∷ (if truthy room then (codes "room:" ++ room) ∷ [] else [])

-- `connectWS`, with the user's id of its closure's session, or none without a session.
unfoldable pub connect_ws : Option Str → Str → Link → Link
unfolding close_socket
connect_ws none room l = l
connect_ws (some user) room l =
    if truthy user
    then record {
      current = some (length l.sockets);
      timer = none;
      live_status = connecting;
      sockets =
          record {
            id = length l.sockets;
            room = room;
            topics = topics_of user room;
            is_closed = false;
          }
          ∷ close_socket l.current l.sockets;
    }
    else l

-- `ws.onopen`, but for the presence that it sends.
unfoldable pub on_open : Link → Link
on_open l = record l { live_status = connected }

-- `ws.onerror`.
unfoldable pub on_error : ℕ → Link → Link
on_error id l = if is_current l.current id then record l { live_status = disconnected } else l

-- `ws.onclose`, with the access token of its closure's session.
unfoldable pub on_close : Str → Socket → Link → Link
on_close token k l =
    if is_current l.current k.id
    then record l {
      live_status = disconnected;
      timer = if truthy token then some k.room else l.timer;
    }
    else l

-- The timer goes off. The ref is not cleared before `connectWS` clears it.
unfoldable pub reconnect : Option Str → Str → Link → Link
unfolding connect_ws
reconnect user room l = connect_ws user room l

-- The cleanup of the effect that connects.
unfoldable pub disconnect_ws : Link → Link
unfolding close_socket
disconnect_ws l = record l {
  current = none;
  timer = none;
  sockets = close_socket l.current l.sockets;
}

-- The effect that connects, when the room or the user changes.
unfoldable pub room_changed : Option Str → Str → Link → Link
unfolding disconnect_ws connect_ws
room_changed user room l = connect_ws user room (disconnect_ws l)

-- What can happen to the link, in any order.
pub data Step (l : Link) : Link → Type 0 where
  rooms_change : (user : Option Str) (room : Str) → Step l (room_changed user room l)
  opens : Step l (on_open l)
  fails : (id : ℕ) → Step l (on_error id l)
  closes : (token : Str) (k : Socket) → Step l (on_close token k l)
  timer_fires :
      (user : Option Str) (room : Str) → l.timer ≡ some room → Step l (reconnect user room l)
  unmounts : Step l (disconnect_ws l)

pub data Reach (l : Link) : Link → Type 0 where
  here : Reach l l
  next : {m n : Link} → Reach l m → Step m n → Reach l n
