-- ===== src/Tests.antt =====
-- The theorems at concrete inputs: a controller with its workers, queues and messages.
mod Meetings
mod Scheduling
mod Stores
mod Channels
mod Messages
mod Planes
mod Swaps
mod Arrivals
mod Peers
mod Contexts
