-- ===== src/Realtime/Own.antt =====
-- A client and its own events. (frontend/src/components/MessengerApp.tsx)
use quiteline.Base.{
  ◌≡◌, refl, Bool, true, false, [], ◌∷◌, ◌++◌, Option, none, some, Str, str_eq, truthy,
  if◌then◌else◌, arith, inl, inr, ℤ, ◌⊎◌, codes,
}
use quiteline.Wire.{
  typing, presence, profile_updated, chats_changed, rooms_changed, friends_changed,
  sessions_changed, session_revoked, message_read, message_created, signal, RealtimeEvent, Identity,
  Presence, online,
}
use quiteline.Realtime.State.{Hub, Scene, publish}
use quiteline.Realtime.Handle.{
  handle_realtime_event, dispatch, on_typing, on_presence, on_profile_updated, send_to_user_raw,
  is_str,
}

-- The user whom an event is about, of the kinds that a client sends about itself.
abbrev pub author : RealtimeEvent → Option Str
author (typing user name is_typing at) = some user
author (presence user name status at echo) = some user
author (profile_updated user name avatar) = some user
author (signal e) = some e.from_user_id
author _ = none

-- A client ignores what it has itself sent to a room: its typing, its presence, its profile and its
-- calls; and it ignores everything while it knows no user. In particular it never answers itself.
pub ignores_own :
    (parse_date : Str → Option ℤ) (s : Scene) (e : RealtimeEvent) (h : Hub)
    → (is_str (author e) s.current_user ≡ true) ⊎ (truthy s.current_user ≡ false)
    → handle_realtime_event parse_date s e h ≡ h
unfolding handle_realtime_event dispatch on_typing on_presence on_profile_updated
ignores_own parse_date s e h (inr q) = rw q refl
ignores_own parse_date s (typing u n b a) h (inl q) = ground arith
ignores_own parse_date s (presence u n p a b) h (inl q) = ground arith
ignores_own parse_date s (profile_updated u n a) h (inl q) = ground arith
ignores_own parse_date s (chats_changed r u a) h (inl q) = ground arith
ignores_own parse_date s (rooms_changed r u a) h (inl q) = ground arith
ignores_own parse_date s (friends_changed u a) h (inl q) = ground arith
ignores_own parse_date s (sessions_changed u a) h (inl q) = ground arith
ignores_own parse_date s (session_revoked u k a) h (inl q) = ground arith
ignores_own parse_date s (message_read r u a) h (inl q) = ground arith
ignores_own parse_date s (message_created r m u a) h (inl q) = ground arith
ignores_own parse_date s (signal e) h (inl q) = ground arith

-- A client with an identity and an open socket answers another user's presence just if that asks for
-- an answer, once, to the user who asked, and with a presence that asks for none: two clients never
-- answer each other for ever.
pub presence_answered :
    (parse_date : Str → Option ℤ) (s : Scene) (me : Identity) (user name at : Str)
    (status : Presence) (echo : Bool) (h : Hub)
    → s.identity ≡ some me
    → s.socket_open ≡ true
    → truthy s.current_user ≡ true
    → truthy user ≡ true
    → str_eq user s.current_user ≡ false
    → (handle_realtime_event parse_date s (presence user name status at echo) h).deeds ≡ (
        if echo
        then h.deeds
          ++ publish
              (codes "user:" ++ user)
              (presence me.user_id me.display_name online s.now_text false)
            ∷ []
        else h.deeds)
unfolding handle_realtime_event dispatch on_presence send_to_user_raw
presence_answered parse_date s me user name at status true h i o c u d =
    rw (c, d) (rw i (rw (o, u) refl))
presence_answered parse_date s me user name at status false h i o c u d = rw (c, d) refl
