-- ===== src/Routes.antt =====
-- The addresses of the application's pages.
-- (frontend/src/types/messenger.ts, frontend/src/components/MessengerApp.tsx)
pub mod Uri
pub mod UriRoundTrip
pub mod Paths
pub mod PathRoundTrip
pub mod Reload
