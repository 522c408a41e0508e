-- ===== src/Routes/Paths.antt =====
-- Paths that are made of routes, and routes that are read from paths.
-- (frontend/src/types/messenger.ts, frontend/src/components/MessengerApp.tsx)
use mathlib.Core.Option.{map as map_option}
use quiteline.Base.{
  Bool, true, false, not, ◌&&◌, ◌||◌, List, [], ◌∷◌, ◌++◌, Option, none, some, Str, codes, str_eq,
  truthy, keep, if◌then◌else◌, or_str, get_or,
}
use quiteline.Js.Split.{split}
use quiteline.Api.Request.{encode_from}
use quiteline.Session.State.{AppView, chat, rooms, profile, contacts, settings}
use quiteline.Session.Login.{Location, is_chat}
use quiteline.Routes.Uri.{decode_uri_component}

pub record AppRouteOptions : Type 0 where
  pub view : Option AppView
  pub room_id : Option Str
  pub message_id : Option Str

abbrev pub is_own_page : AppView → Bool
is_own_page profile = true
is_own_page settings = true
is_own_page _ = false

-- `s.length > 0` on a string that may be absent.
abbrev pub is_given : Option Str → Bool
is_given none = false
is_given (some s) = truthy s

-- `/chats/…`, given what `encodeURIComponent` makes of the room's id.
abbrev pub chat_path : Option Str → Option Str
chat_path room = map_option (λ (r : Str). codes "/chats/" ++ r) room

unfoldable pub message_path : Option Str → Option Str → Option Str
message_path none message = none
message_path (some path) message =
    map_option (λ (m : Str). path ++ (codes "/messages/" ++ m)) message

-- `buildAppPath`, in a browser: none is the URIError.
unfoldable pub build_app_path : AppRouteOptions → Option Str
unfolding encode_from message_path
build_app_path o =
    let view = get_or o.view rooms in
    if is_own_page view
    then some (codes "/profile")
    else if is_chat view && is_given o.room_id
    then (let path = chat_path (encode_from none (get_or o.room_id [])) in
        if is_given o.message_id
        then message_path path (encode_from none (get_or o.message_id []))
        else path)
    else some (codes "/chats")

abbrev pub cons_some : Option Str → Option (List Str) → Option (List Str)
cons_some none ss = none
cons_some (some s) none = none
cons_some (some s) (some ss) = some (s ∷ ss)

-- `parts.map(decodeURIComponent)`.
unfoldable pub decode_all : List Str → Option (List Str)
unfolding decode_uri_component
decode_all [] = some []
decode_all (p ∷ ps) = cons_some (decode_uri_component p) (decode_all ps)

abbrev pub no_route : AppRouteOptions
no_route = record { view = none; room_id = none; message_id = none }

abbrev pub message_part : List Str → Option Str
message_part [] = none
message_part (m ∷ []) = none
message_part (m ∷ i ∷ ps) = if str_eq m (codes "messages") then some i else none

-- What stands behind `chats`.
abbrev pub chat_route : List Str → AppRouteOptions
chat_route [] = record { view = some rooms; room_id = none; message_id = none }
chat_route (r ∷ ps) = record {
  view = some (if truthy r then chat else rooms);
  room_id = some r;
  message_id = message_part ps;
}

unfoldable pub route_of_parts : List Str → AppRouteOptions
route_of_parts [] = no_route
route_of_parts (p ∷ ps) =
    if str_eq p (codes "profile")
    then record { view = some settings; room_id = none; message_id = none }
    else if str_eq p (codes "chats")
    then chat_route ps
    else no_route

-- `appRouteFromPath`: none is the URIError.
unfoldable pub app_route_from_path : Str → Option AppRouteOptions
unfolding split decode_all route_of_parts
app_route_from_path path = map_option route_of_parts (decode_all (keep truthy (split b'/' path)))

-- `appViewFromParam`, on a parameter that is there.
unfoldable pub app_view_from_param : Str → AppView
app_view_from_param v =
    if str_eq v (codes "chats")
    then rooms
    else if str_eq v (codes "chat")
    then chat
    else if str_eq v (codes "profile")
    then profile
    else if str_eq v (codes "contacts")
    then contacts
    else if str_eq v (codes "settings")
    then settings
    else rooms

-- `new URLSearchParams(window.location.search)`, at the names that are asked for.
pub record Params : Type 0 where
  pub invite : Option Str
  pub chat_param : Option Str
  pub room_param : Option Str
  pub message_param : Option Str
  pub view_param : Option Str

-- What the first effect reads from the URL.
unfoldable pub location_of : Params → AppRouteOptions → Location
unfolding app_view_from_param
location_of p route =
    let linked = or_str p.chat_param (or_str p.room_param (get_or route.room_id [])) in
    record {
      invite = get_or p.invite [];
      chat_id = linked;
      message_id = or_str p.message_param (get_or route.message_id []);
      view =
          if is_given p.view_param
          then app_view_from_param (get_or p.view_param [])
          else get_or route.view (if truthy linked then chat else rooms);
    }

-- The view that the URL shows.
abbrev pub shown_view : Bool → Str → AppView → AppView
shown_view is_mobile active left =
    if truthy active && not is_mobile
    then chat
    else if truthy active
    then left
    else if is_chat left
    then rooms
    else left

-- The effect that puts the state into the URL: the options of `replaceAppURL`, if it is called.
-- `ready` is `urlStateReadyRef`, `has_invite` says that the URL has an invite.
unfoldable pub sync_url : Bool → Bool → Bool → Str → Str → AppView → Option AppRouteOptions
sync_url ready has_invite is_mobile active highlighted left =
    let view = shown_view is_mobile active left in
    let here = truthy active && is_chat view in
    if not ready || has_invite
    then none
    else some (record {
      view = some view;
      room_id = if here then some active else none;
      message_id = if here && truthy highlighted then some highlighted else none;
    })
