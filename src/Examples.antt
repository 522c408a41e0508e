-- ===== src/Examples.antt =====
-- The theorems at concrete inputs.
mod Data
mod Newest
mod Chat
mod Calls
mod Hub
mod Account
mod View
mod Places
mod Ciphers
