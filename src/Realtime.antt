-- ===== src/Realtime.antt =====
-- What arrives on the socket and what is sent on it. (frontend/src/components/MessengerApp.tsx)
pub mod State
pub mod Handle
pub mod Socket
pub mod Own
pub mod Typing
pub mod Sockets
