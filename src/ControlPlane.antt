-- ===== src/ControlPlane.antt =====
-- The control plane: control-plane/src with its headers. An operation on an object is an `Action` on
-- the object's state: it returns a value or throws, and in both cases leaves a state and the list of
-- what it did to the outside, in order.
pub mod Process
pub mod Application
pub mod World
pub mod Server
pub mod Workers
