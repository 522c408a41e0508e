-- ===== src/People/Friends.antt =====
-- Requests between friends. (frontend/src/hooks/useFriends.ts)
use quiteline.Base.{
  Bool, [], ◌∷◌, List, ◌++◌, Option, none, some, Str, truthy, codes, if◌then◌else◌,
}
use quiteline.Js.Split.{trim}
use quiteline.Wire.{AuthSession, Friend, Reply, ok, auth_error, error}
use quiteline.Api.Request.{Request}
use quiteline.Api.Mutate.{Mutation, ask, throw, run_mutation}
use quiteline.Api.People.{request_friend, respond_friend}

-- What the hook has others do.
pub data FriendDeed : Type 0 where
  refetch_friends notice_sent : FriendDeed
  -- `handleRequestError`, with what the request has ended in.
  request_failed : Reply {0} Unit → FriendDeed

pub record FriendsHook : Type 0 where
  pub friend_username : Str
  pub deeds : List FriendDeed

unfoldable pub request_friend_fn : Option AuthSession → FriendsHook → Mutation
unfolding trim
request_friend_fn none h = throw (codes "friend_code_required")
request_friend_fn (some s) h =
    if truthy (trim h.friend_username)
    then ask (request_friend s.access_token (trim h.friend_username))
    else throw (codes "friend_code_required")

-- `onSuccess` and `onError` of `requestFriendMutation`.
unfoldable pub friend_requested : Reply {0} Unit → FriendsHook → FriendsHook
friend_requested (ok u) h = record h {
  friend_username = [];
  deeds = h.deeds ++ refetch_friends ∷ notice_sent ∷ [];
}
friend_requested auth_error h = record h { deeds = h.deeds ++ request_failed auth_error ∷ [] }
friend_requested (error e) h = record h { deeds = h.deeds ++ request_failed (error e) ∷ [] }

unfoldable pub respond_friend_fn : Option AuthSession → Friend → Bool → Mutation
respond_friend_fn none friend accept = throw (codes "login_required")
respond_friend_fn (some s) friend accept = ask (respond_friend s.access_token friend.user_id accept)

unfoldable pub friend_responded : Reply {0} Unit → FriendsHook → FriendsHook
friend_responded (ok u) h = record h { deeds = h.deeds ++ refetch_friends ∷ [] }
friend_responded auth_error h = record h { deeds = h.deeds ++ request_failed auth_error ∷ [] }
friend_responded (error e) h = record h { deeds = h.deeds ++ request_failed (error e) ∷ [] }

-- The mutations, with what the server answers.
unfoldable pub request_friend_mutation :
    (Request → Reply {0} Unit) → Option AuthSession → FriendsHook → FriendsHook
unfolding request_friend_fn friend_requested
request_friend_mutation server s h =
    friend_requested (run_mutation server (request_friend_fn s h)) h

unfoldable pub respond_friend_mutation :
    (Request → Reply {0} Unit) → Option AuthSession → Friend → Bool → FriendsHook → FriendsHook
unfolding respond_friend_fn friend_responded
respond_friend_mutation server s friend accept h =
    friend_responded (run_mutation server (respond_friend_fn s friend accept)) h
