-- ===== src/Rooms.antt =====
-- The list of rooms, and how a client comes to a room and leaves it.
-- (frontend/src/hooks/useRooms.ts)
pub mod Activity
pub mod Unread
pub mod Bag
pub mod Each
pub mod Ordered
pub mod Counting
pub mod Events
