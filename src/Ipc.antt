-- ===== src/Ipc.antt =====
-- The channel between the controller of a process and its function workers: the 128-byte headers of
-- process/runtime/include/praas/process/runtime/internal/ipc/messages.hpp and
-- process/runtime/src/internal/messages.cpp, and the message queues of ipc.cpp.
pub mod Header
pub mod GenericRequest
pub mod InvocationRequest
pub mod InvocationResult
pub mod StateKeys
pub mod ApplicationUpdate
pub mod Parser
pub mod RoundTrip
pub mod Channel
