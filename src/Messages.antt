-- ===== src/Messages.antt =====
-- The message hook (frontend/src/hooks/useMessages.ts): which messages are shown, from the pages
-- of the server, the live messages of the socket and the ones that wait to be sent.
pub mod Version
pub mod State
pub mod Paging
pub mod Merge
pub mod Newest
pub mod Pages
pub mod Sending
pub mod Display
pub mod Decrypting
pub mod Attachments
pub mod Loading
pub mod Shown
pub mod Sent
pub mod Cached
pub mod Secrets
pub mod Transmit
