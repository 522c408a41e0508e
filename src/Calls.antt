-- ===== src/Calls.antt =====
-- Voice calls (frontend/src/components/MessengerApp.tsx): the state of the one call that a client
-- can be in, and the handlers that change it.
pub mod State
pub mod Cleanup
pub mod Media
pub mod Handlers
pub mod Events
pub mod Steps
pub mod Invariant
pub mod EventsInvariant
pub mod HandlersInvariant
pub mod Reachable
pub mod Endings
pub mod Late
pub mod Keeps
pub mod Heard
pub mod Exchange
pub mod Connects
pub mod EndsBoth
