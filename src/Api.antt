-- ===== src/Api.antt =====
-- The client of the HTTP interface. (frontend/src/lib/api.ts)
pub mod Request
pub mod Answer
pub mod Account
pub mod Devices
pub mod People
pub mod Chat
pub mod Calls
pub mod All
pub mod Urls
pub mod Mutate
