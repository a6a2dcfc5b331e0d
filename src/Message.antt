-- ===== src/Message.antt =====
-- common/include/praas/common/messages.hpp: the 70-byte headers that the control plane, the data
-- plane and the processes exchange. A `Message<Data, …>` is the list of its bytes, with the lengths
-- that its class caches; `MessageData` and `MessagePtr` differ only in who owns the bytes.
pub mod Header
pub mod ProcessConnection
pub mod SwapRequest
pub mod SwapConfirmation
pub mod InvocationRequest
pub mod InvocationResult
pub mod DataPlaneMetrics
pub mod ApplicationUpdate
pub mod PutMessage
pub mod Parser
pub mod Builders
pub mod Classes
pub mod RoundTrip
