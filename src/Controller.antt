-- ===== src/Controller.antt =====
-- The controller of a process: process/controller/src/controller.cpp and what it is made of.
pub mod Mailbox
pub mod Pending
pub mod WorkQueue
pub mod Workers
pub mod Application
pub mod State
pub mod Replies
pub mod Internal
pub mod External
pub mod Answers
pub mod Delivery
pub mod Broadcast
pub mod Rendezvous
pub mod RemoteRendezvous
pub mod Talking
pub mod Requests
pub mod Invariant
