-- ===== src/Routes/PathRoundTrip.antt =====
-- Routes that are written as paths and read again.
-- (frontend/src/types/messenger.ts, frontend/src/components/MessengerApp.tsx)
use mathlib.Core.Option.{map as map_option}
use quiteline.Base.{
  ◌≡◌, refl, ap, ◌∙◌, true, ◌&&◌, List, [], ◌∷◌, ◌++◌, Option, none, some, ℕ, Str, codes, str_eq,
  truthy, keep, if◌then◌else◌, get_or, arith, All,
}
use quiteline.Js.Split.{split}
use quiteline.Api.Request.{encode_from}
use quiteline.Api.Urls.{count, count-encode_from}
use quiteline.Session.State.{AppView, chat, rooms, settings, profile, contacts, calls}
use quiteline.Session.Login.{is_chat}
use quiteline.Routes.Uri.{decode_uri_component, tokens, assemble}
use quiteline.Routes.UriRoundTrip.{
  IsUnit, is_paired, encode_from-is_paired, decode_uri_component-encode_from,
}
use quiteline.Routes.Paths.{
  AppRouteOptions, is_own_page, is_given, message_path, build_app_path, decode_all, route_of_parts,
  app_route_from_path,
}

-- Parts that do not have the separator are parted where it stands.
split-alone : (c : ℕ) (s : Str) → count c s ≡ 0 → split c s ≡ s ∷ []
unfolding split
split-alone c [] h = refl
split-alone c (d ∷ s) h = ground (arith, split-alone c s)

split-append : (c : ℕ) (s t : Str) → count c s ≡ 0 → split c (s ++ c ∷ t) ≡ s ∷ split c t
unfolding split
split-append c [] t h = ground arith
split-append c (d ∷ s) t h = ground (arith, split-append c s t)

-- What a route comes to: the own page is called settings, and what is no chat is the list of rooms.
abbrev pub kept_route : AppRouteOptions → AppRouteOptions
kept_route o =
    if is_own_page (get_or o.view rooms)
    then record { view = some settings; room_id = none; message_id = none }
    else if is_chat (get_or o.view rooms) && is_given o.room_id
    then record {
      view = some chat;
      room_id = o.room_id;
      message_id = if is_given o.message_id then o.message_id else none;
    }
    else record { view = some rooms; room_id = none; message_id = none }

decode_nothing : decode_uri_component [] ≡ some []
unfolding decode_uri_component tokens assemble
decode_nothing = refl

decode_chats : decode_uri_component (codes "chats") ≡ some (codes "chats")
unfolding decode_uri_component tokens assemble
decode_chats = refl

decode_messages : decode_uri_component (codes "messages") ≡ some (codes "messages")
unfolding decode_uri_component tokens assemble
decode_messages = refl

encode_from-truthy :
    (s t : Str) → All IsUnit s → truthy s ≡ true → encode_from none s ≡ some t → truthy t ≡ true
encode_from-truthy [] t u h e = cc
encode_from-truthy (c ∷ s) [] u h e =
    let back = decode_uri_component-encode_from (c ∷ s) [] u e in absurd (cc (back, decode_nothing))
encode_from-truthy (c ∷ s) (d ∷ t) u h e = refl

module _ (r e : Str) (u : All IsUnit r) (h : truthy r ≡ true)
    (q : encode_from none r ≡ some e) where
  chat_parts : keep truthy (split b'/' (codes "/chats/" ++ e)) ≡ codes "chats" ∷ e ∷ []
  unfolding split
  chat_parts =
      rw (split-alone b'/' e (count-encode_from b'/' refl none r e q))
        (rw (encode_from-truthy r e u h q) refl)

  chat_decoded : decode_all (codes "chats" ∷ e ∷ []) ≡ some (codes "chats" ∷ r ∷ [])
  unfolding decode_all
  chat_decoded = rw (decode_chats, decode_uri_component-encode_from r e u q) refl

  chat_read :
      app_route_from_path (codes "/chats/" ++ e)
      ≡ some (record { view = some chat; room_id = some r; message_id = none })
  unfolding app_route_from_path route_of_parts str_eq
  chat_read =
      ap (λ (ps : List Str). map_option route_of_parts (decode_all ps)) chat_parts
      ∙ ap (map_option route_of_parts) chat_decoded
      ∙ rw h refl

module _ (r e m f : Str) (u : All IsUnit r) (h : truthy r ≡ true) (q : encode_from none r ≡ some e)
    (v : All IsUnit m) (k : truthy m ≡ true) (p : encode_from none m ≡ some f) where
  message_parts :
      keep truthy (split b'/' (codes "/chats/" ++ e ++ (codes "/messages/" ++ f)))
      ≡ codes "chats" ∷ e ∷ codes "messages" ∷ f ∷ []
  unfolding split
  message_parts =
      rw (split-append b'/' e (codes "messages/" ++ f) (count-encode_from b'/' refl none r e q)) (
        rw (split-alone b'/' f (count-encode_from b'/' refl none m f p))
          (rw (encode_from-truthy r e u h q, encode_from-truthy m f v k p) refl))

  message_decoded :
      decode_all (codes "chats" ∷ e ∷ codes "messages" ∷ f ∷ [])
      ≡ some (codes "chats" ∷ r ∷ codes "messages" ∷ m ∷ [])
  unfolding decode_all
  message_decoded =
      rw (decode_chats, decode_messages)
        (rw (decode_uri_component-encode_from r e u q, decode_uri_component-encode_from m f v p)
          refl)

  message_read :
      app_route_from_path (codes "/chats/" ++ e ++ (codes "/messages/" ++ f))
      ≡ some (record { view = some chat; room_id = some r; message_id = some m })
  unfolding app_route_from_path route_of_parts str_eq
  message_read =
      ap (λ (ps : List Str). map_option route_of_parts (decode_all ps)) message_parts
      ∙ ap (map_option route_of_parts) message_decoded
      ∙ rw h refl

-- A text that a URL can hold: of code units, with its surrogates in pairs.
abbrev pub IsText : Option Str → Type 0
IsText none = Unit
IsText (some s) = All IsUnit s × (is_paired none s ≡ true)

profile_read :
    app_route_from_path (codes "/profile")
    ≡ some (record { view = some settings; room_id = none; message_id = none })
unfolding app_route_from_path route_of_parts decode_all decode_uri_component tokens assemble split
    str_eq
profile_read = refl

chats_read :
    app_route_from_path (codes "/chats")
    ≡ some (record { view = some rooms; room_id = none; message_id = none })
unfolding app_route_from_path route_of_parts decode_all decode_uri_component tokens assemble split
    str_eq
chats_read = refl

abbrev Returns : AppRouteOptions → Type 0
Returns o = (p : Str) × (build_app_path o ≡ some p) × (app_route_from_path p ≡ some (kept_route o))

chat_Returns :
    (r : Str) (message : Option Str)
    → truthy r ≡ true
    → IsText (some r)
    → IsText message
    → Returns (record { view = some chat; room_id = some r; message_id = message })
unfolding build_app_path message_path
chat_Returns r none h a b =
    let (e, q) = encode_from-is_paired none r a.1 in
    (codes "/chats/" ++ e, rw h (rw q refl), rw h (chat_read r e a.0 h q))
chat_Returns r (some []) h a b =
    let (e, q) = encode_from-is_paired none r a.1 in
    (codes "/chats/" ++ e, rw h (rw q refl), rw h (chat_read r e a.0 h q))
chat_Returns r (some (c ∷ m)) h a b =
    let (e, q) = encode_from-is_paired none r a.1 in
    let (f, p) = encode_from-is_paired none (c ∷ m) b.1 in
    (
      codes "/chats/" ++ e ++ (codes "/messages/" ++ f),
      rw h (rw (q, p) refl),
      rw h (message_read r e (c ∷ m) f a.0 h q b.0 refl p),
    )

view_Returns :
    (view : AppView) (room message : Option Str)
    → IsText room
    → IsText message
    → Returns (record { view = some view; room_id = room; message_id = message })
unfolding build_app_path
view_Returns chat none message a b = (codes "/chats", refl, chats_read)
view_Returns chat (some []) message a b = (codes "/chats", refl, chats_read)
view_Returns chat (some (c ∷ r)) message a b = chat_Returns (c ∷ r) message refl a b
view_Returns rooms room message a b = (codes "/chats", refl, chats_read)
view_Returns profile room message a b = (codes "/profile", refl, profile_read)
view_Returns contacts room message a b = (codes "/chats", refl, chats_read)
view_Returns settings room message a b = (codes "/profile", refl, profile_read)
view_Returns calls room message a b = (codes "/chats", refl, chats_read)

route_Returns :
    (view : Option AppView) (room message : Option Str)
    → IsText room
    → IsText message
    → Returns (record { view = view; room_id = room; message_id = message })
unfolding build_app_path
route_Returns none room message a b = (codes "/chats", refl, chats_read)
route_Returns (some view) room message a b = view_Returns view room message a b

-- The path of a route can be made, and is read as the route, if the ids are texts with their
-- surrogates in pairs. A chat keeps its room, and its message if it names one; both of a user's own
-- pages come to the settings, and all else comes to the list of rooms.
pub app_route_from_path-build_app_path :
    (o : AppRouteOptions)
    → IsText o.room_id
    → IsText o.message_id
    → (p : Str) × (build_app_path o ≡ some p) × (app_route_from_path p ≡ some (kept_route o))
app_route_from_path-build_app_path o a b = route_Returns o.view o.room_id o.message_id a b
