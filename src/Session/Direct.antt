-- ===== src/Session/Direct.antt =====
-- Rooms of two friends, rooms that one is invited to, and secrets that are typed.
-- (frontend/src/components/MessengerApp.tsx, frontend/src/hooks/useRooms.ts)
use quiteline.Base.{
  Bool, true, false, not, ◌||◌, List, [], ◌∷◌, ◌++◌, Option, none, some, ℕ, Str, str_eq, truthy,
  ltb, ◌==◌, codes, or_else, or_str, if◌then◌else◌,
}
use quiteline.Js.OrderedMap.{set, get}
use quiteline.Js.Split.{trim}
use quiteline.Wire.{AuthSession, Friend, Room, Reply, ok, auth_error, error}
use quiteline.Api.Request.{Request}
use quiteline.Api.Mutate.{Mutation, ask, throw}
use quiteline.Api.Chat.{create_room, invite_friend_to_room, mark_room_read}
use quiteline.Session.State.{App, refetch_rooms}
use quiteline.Session.Account.{
  do_app, persist_room_secrets, handle_request_error, handle_auth_expired,
}
use quiteline.Session.Rooms.{select_room}

-- The order of `sort` without a comparator: by code units.
unfoldable pub str_gt : Str → Str → Bool
str_gt [] t = false
str_gt (c ∷ s) [] = true
str_gt (c ∷ s) (d ∷ t) = let rest = str_gt s t in if c == d then rest else ltb d c

-- `[a, b].sort()`.
unfoldable pub sort_two : Str → Str → Str × Str
unfolding str_gt
sort_two a b = if str_gt a b then (b, a) else (a, b)

-- `direct-${[a, b].sort().join('-')}`.
unfoldable pub direct_room_id : Str → Str → Str
unfolding sort_two
direct_room_id a b = let (x, y) = sort_two a b in codes "direct-" ++ (x ++ (codes "-" ++ y))

abbrev pub find_room : Str → List Room → Option Room
find_room k [] = none
find_room k (r ∷ rs) = if str_eq r.room_id k then some r else find_room k rs

-- `openDirectChat` until its first request, given the rooms of the query's cache: the room that is
-- there is selected, or one is asked for with a new secret.
unfoldable pub open_direct_chat :
    Bool → Str → Friend → Option (List Room) → App → App × Option Request
unfolding direct_room_id select_room
open_direct_chat is_mobile secret friend rooms a = elim a.identity [
  | none ↦ (a, none)
  | some me ↦ elim a.session [
    | none ↦ (a, none)
    | some s ↦
        let id = direct_room_id me.user_id friend.user_id in
        elim (find_room id (elim rooms [ none ↦ [] | some rs ↦ rs ])) [
          | some room ↦ (select_room is_mobile room a, none)
          | none ↦ (
            a,
            some (
                create_room (some id) (or_else friend.display_name (codes "Direct"))
                  (me.user_id ∷ []) (some secret) s.access_token),
          )
        ]
  ]
]

-- What the room's answer does, on the state that the closure has seen: the secret is kept, and the
-- friend is invited.
unfoldable pub direct_created :
    Str → Friend → AuthSession → Reply Room → App → App → App × Option Request
unfolding persist_room_secrets handle_request_error
direct_created secret friend s (ok room) seen a = (
  persist_room_secrets seen.session
      (set room.room_id (or_str room.room_secret secret) seen.room_secrets) a,
  some (invite_friend_to_room s.access_token room.room_id friend.user_id),
)
direct_created secret friend s auth_error seen a =
    (handle_request_error {A = Unit {0}} auth_error a, none)
direct_created secret friend s (error e) seen a =
    (handle_request_error {A = Unit {0}} (error e) a, none)

-- And what the invitation's answer does.
unfoldable pub direct_invited : Bool → Room → Reply {0} Unit → App → App
unfolding select_room handle_request_error
direct_invited is_mobile room (ok u) a = select_room is_mobile room (do_app refetch_rooms a)
direct_invited is_mobile room auth_error a = handle_request_error {A = Unit {0}} auth_error a
direct_invited is_mobile room (error e) a = handle_request_error {A = Unit {0}} (error e) a

-- `saveManualSecret`: the state, and what is left of the text that was typed.
unfoldable pub save_manual_secret : Str → App → App → App × Str
unfolding trim persist_room_secrets
save_manual_secret typed seen a =
    if not (truthy seen.active_room) || not (truthy (trim typed)) then (a, typed) else (
      persist_room_secrets seen.session (set seen.active_room (trim typed) seen.room_secrets) a,
      [],
    )

-- An invite that has been read: a room and its secret.
pub record InvitePayload : Type 0 where
  pub room_id : Str
  pub secret : Str

-- The function of `importInviteMutation`; `imported` is the name of an imported room.
unfoldable pub import_invite_fn : Str → Option InvitePayload → App → Mutation
import_invite_fn imported invite a = elim a.identity [
  | none ↦ throw (codes "account_required")
  | some me ↦ elim a.session [
    | none ↦ throw (codes "account_required")
    | some s ↦ elim invite [
      | none ↦ throw (codes "invite_format_must_be_roomId_secret")
      | some i ↦
          ask
            (create_room (some i.room_id) imported (me.user_id ∷ []) (some i.secret) s.access_token)
    ]
  ]
]

-- `inviteFriendMutation`, and `markRead`.
unfoldable pub invite_friend_fn : Friend → App → Mutation
invite_friend_fn friend a = elim a.session [
  | none ↦ throw (codes "room_not_ready")
  | some s ↦
      if truthy a.active_room
      then ask (invite_friend_to_room s.access_token a.active_room friend.user_id)
      else throw (codes "room_not_ready")
]

unfoldable pub friend_invited : Reply {0} Unit → App → App
unfolding handle_request_error
friend_invited (ok u) a = do_app refetch_rooms a
friend_invited auth_error a = handle_request_error {A = Unit {0}} auth_error a
friend_invited (error e) a = handle_request_error {A = Unit {0}} (error e) a

unfoldable pub room_read : Reply {0} Unit → App → App
unfolding handle_auth_expired
room_read (ok u) a = a
room_read auth_error a = handle_auth_expired a
room_read (error e) a = a

-- The effect that marks the open room as read when the number of its messages has changed since the
-- last mark: the marks, and the request.
unfoldable pub mark_read :
    Option AuthSession → Str → ℕ → List (Str × ℕ) → List (Str × ℕ) × Option Request
unfolding set get
mark_read none active count marks = (marks, none)
mark_read (some s) active count marks =
    let marked : List (Str × ℕ) × Option Request =
      (set active count marks, some (mark_room_read s.access_token active)) in
    if not (truthy active) then (marks, none) else elim (get active marks) [
      | none ↦ marked
      | some n ↦ if n == count then (marks, none) else marked
    ]
