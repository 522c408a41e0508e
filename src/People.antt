-- ===== src/People.antt =====
-- The members of a room, friends, and who is online.
-- (frontend/src/hooks/useIdentity.ts, frontend/src/hooks/useFriends.ts,
-- frontend/src/components/MessengerApp.tsx)
pub mod Members
pub mod Presence
pub mod Friends
pub mod Known
