-- ===== src/Session.antt =====
-- The account that a client is logged in to, and what it keeps for it.
-- (frontend/src/components/MessengerApp.tsx)
pub mod State
pub mod Account
pub mod Login
pub mod Rooms
pub mod Kept
pub mod Security
pub mod Direct
pub mod DirectRooms
pub mod Stale
