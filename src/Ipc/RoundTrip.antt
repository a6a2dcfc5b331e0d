-- ===== src/Ipc/RoundTrip.antt =====
-- What one side of a message queue fills in is what the other side parses.
pub mod Typed
pub mod Get
pub mod Inputs
