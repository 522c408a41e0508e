-- ===== src/Push.antt =====
-- Notifications that a browser is subscribed to. (frontend/src/components/layout/Sidebar.tsx)
pub mod State
pub mod Enable
pub mod Disable
pub mod Ends
pub mod Key
