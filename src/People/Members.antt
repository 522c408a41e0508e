-- ===== src/People/Members.antt =====
-- The members of the open room. (frontend/src/hooks/useIdentity.ts,
-- frontend/src/components/MessengerApp.tsx)
use quiteline.Base.{
  Bool, true, false, not, ◌&&◌, List, [], ◌∷◌, map, Option, none, some, ℕ, Str, str_eq, ltb,
  if◌then◌else◌, keep,
}
use quiteline.Js.OrderedMap.{get}
use quiteline.Js.Spread.{set_all}
use quiteline.Wire.{
  Identity, Room, AuthSession, Friend, pending, accepted, online, offline, Reply, ok, auth_error,
  error,
}
use quiteline.Api.Request.{Request}
use quiteline.Api.People.{fetch_identity, touch_identity}
use quiteline.Realtime.State.{Seen, Typing}

-- `fetchIdentity(…).catch(…)`: an error that is not of the session is no identity.
abbrev pub caught : Reply Identity → Reply (Option Identity)
caught (ok i) = ok (some i)
caught auth_error = auth_error
caught (error e) = ok none

abbrev pub put_reply : {A : Type 0} → Reply A → Reply (List A) → Reply (List A)
put_reply (ok a) (ok rest) = ok (a ∷ rest)
put_reply (ok a) auth_error = auth_error
put_reply (ok a) (error e) = error e
put_reply auth_error r = auth_error
put_reply (error e) r = error e

-- `Promise.all`, of requests that end in order.
unfoldable pub promise_all : {A : Type 0} → List (Reply A) → Reply (List A)
promise_all [] = ok []
promise_all (r ∷ rs) = put_reply r (promise_all rs)

-- `identities.filter((item) => Boolean(item))`.
abbrev pub present : {A : Type 0} → List (Option A) → List A
present [] = []
present (none ∷ os) = present os
present (some a ∷ os) = a ∷ present os

abbrev pub map_reply : {A B : Type 0} → (A → B) → Reply A → Reply B
map_reply f (ok a) = ok (f a)
map_reply f auth_error = auth_error
map_reply f (error e) = error e

-- The query of `memberIdentities`: `server` is what each request ends in.
unfoldable pub member_identities :
    (Request → Reply Identity) → Option Room → Option AuthSession → Reply (List Identity)
unfolding promise_all
member_identities server none session = ok []
member_identities server (some room) none = ok []
member_identities server (some room) (some s) = map_reply present (
    promise_all
      (map (λ member. caught (server (fetch_identity member s.access_token))) room.members))

-- What the effect that touches the identity asks for, at once and every minute; and whether an
-- answer ends the session.
unfoldable pub touch : Option Identity → Option AuthSession → Option Request
touch none s = none
touch (some me) none = none
touch (some me) (some s) = some (touch_identity me.user_id s.access_token)

abbrev pub ends_session : {A : Type 0} → Reply A → Bool
ends_session (ok a) = false
ends_session auth_error = true
ends_session (error e) = false

-- `identitiesByID`.
unfoldable pub identities_by_id : List Identity → List (Str × Identity)
unfolding set_all
identities_by_id members = set_all (map (λ (m : Identity). (m.user_id, m)) members) []

abbrev pub is_me : Option Identity → Str → Bool
is_me none user_id = false
is_me (some me) user_id = str_eq user_id me.user_id

-- `peers`.
unfoldable pub peers : Option Identity → List Identity → List Identity
peers me members = keep (λ (m : Identity). not (is_me me m.user_id)) members

abbrev pub is_online_seen : Option Seen → Bool
is_online_seen none = false
is_online_seen (some s) = elim s.status [ online ↦ true | offline ↦ false ]

-- `presence[id]?.status === 'online'`.
unfoldable pub is_online : List (Str × Seen) → Str → Bool
unfolding get
is_online presence user_id = is_online_seen (get user_id presence)

abbrev pub first_of : {A : Type 0} → List A → Option A
first_of [] = none
first_of (a ∷ rest) = some a

-- `xs.find(p)`.
abbrev pub find_first : {A : Type 0} → (A → Bool) → List A → Option A
find_first p [] = none
find_first p (a ∷ rest) = if p a then some a else find_first p rest

-- `o ?? p`.
abbrev pub or_option : {A : Type 0} → Option A → Option A → Option A
or_option none p = p
or_option (some a) p = some a

-- `preferredCallPeer`.
unfoldable pub preferred_call_peer : List (Str × Seen) → List Identity → Option Identity
unfolding is_online
preferred_call_peer presence members =
    or_option (find_first (λ (m : Identity). is_online presence m.user_id) members)
      (first_of members)

abbrev pub is_accepted : Friend → Bool
is_accepted f = elim f.status [ pending ↦ false | accepted ↦ true ]

-- `acceptedFriends`, of what the query's cache holds.
unfoldable pub accepted_friends : Option (List Friend) → List Friend
accepted_friends none = []
accepted_friends (some friends) = keep is_accepted friends

-- `activeTyping`.
unfoldable pub active_typing : Option Identity → ℕ → List (Str × Typing) → List Str
active_typing me now users =
    map (λ (u : Str × Typing). u.1.display_name)
      (keep (λ (u : Str × Typing). not (is_me me u.0) && ltb now u.1.until) users)
