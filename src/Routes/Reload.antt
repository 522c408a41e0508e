-- ===== src/Routes/Reload.antt =====
-- The application's page, loaded again at the address that it shows.
-- (frontend/src/components/MessengerApp.tsx)
use quiteline.Base.{
  ◌≡◌, refl, Bool, true, false, [], ◌∷◌, none, some, Str, truthy, if◌then◌else◌, arith,
}
use quiteline.Session.State.{App, AppView, chat}
use quiteline.Session.Login.{is_chat, apply_location}
use quiteline.Routes.Paths.{
  AppRouteOptions, Params, build_app_path, app_route_from_path, location_of, sync_url, shown_view,
}
use quiteline.Routes.PathRoundTrip.{IsText, kept_route, app_route_from_path-build_app_path}

abbrev pub no_params : Params
no_params = record {
  invite = none;
  chat_param = none;
  room_param = none;
  message_param = none;
  view_param = none;
}

-- A client that is loaded with a path: what its first effect does at once.
abbrev pub loaded_at : AppRouteOptions → App → App
loaded_at route a = apply_location (location_of no_params route) a

loaded_room :
    (r h : Str) (a : App)
    → truthy r ≡ true
    → let route : AppRouteOptions = kept_route (record {
      view = some chat;
      room_id = some r;
      message_id = if truthy h then some h else none;
    }) in
      ((loaded_at route a).active_room ≡ r)
      × ((loaded_at route a).highlighted ≡ (if truthy h then h else a.highlighted))
unfolding apply_location location_of
loaded_room [] h a e = cc
loaded_room (c ∷ r) [] a e = (refl, refl)
loaded_room (c ∷ r) (d ∷ h) a e = (refl, refl)

sync_url-shown :
    (is_mobile : Bool) (r h : Str) (left : AppView)
    → truthy r ≡ true
    → is_chat (shown_view is_mobile r left) ≡ true
    → sync_url true false is_mobile r h left
      ≡ some (record {
        view = some chat;
        room_id = some r;
        message_id = if truthy h then some h else none;
      })
unfolding sync_url
sync_url-shown is_mobile r h left e k = ground (arith, chat_lem (shown_view is_mobile r left) k)
  where
    chat_lem : (v : AppView) → is_chat v ≡ true → v ≡ chat
    chat_lem v k = ground arith

-- A client that shows a room writes an address that can be made, and a client that is loaded at
-- this address opens the same room at once, at the same message if one is marked, if the ids are
-- texts with their surrogates in pairs.
pub sync_url-apply_location :
    (is_mobile : Bool) (r h : Str) (left : AppView) (a : App)
    → truthy r ≡ true
    → is_chat (shown_view is_mobile r left) ≡ true
    → IsText (some r)
    → IsText (some h)
    → (o : AppRouteOptions) × (sync_url true false is_mobile r h left ≡ some o)
      × (p : Str) × (build_app_path o ≡ some p)
      × (route : AppRouteOptions) × (app_route_from_path p ≡ some route)
      × ((apply_location (location_of no_params route) a).active_room ≡ r)
      × ((apply_location (location_of no_params route) a).highlighted
          ≡ (if truthy h then h else a.highlighted))
sync_url-apply_location is_mobile r h left a e k t u =
    let o : AppRouteOptions = record {
      view = some chat;
      room_id = some r;
      message_id = if truthy h then some h else none;
    } in
    let (p, made, read) = app_route_from_path-build_app_path o t (kept h u) in
    let (room, message) = loaded_room r h a e in
    (o, sync_url-shown is_mobile r h left e k, p, made, kept_route o, read, room, message)
  where
    kept : (h : Str) → IsText (some h) → IsText (if truthy h then some h else none)
    kept [] u = tt
    kept (d ∷ h) u = u
