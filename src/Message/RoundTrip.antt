-- ===== src/Message/RoundTrip.antt =====
-- What a sender fills in is what the receiver's parser finds: one child for each message.
pub mod Typed
pub mod Request
pub mod Outcome
pub mod Put
pub mod Registration
