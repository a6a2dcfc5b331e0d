-- ===== src/Remote.antt =====
-- The TCP server of a process: process/controller/include/praas/process/controller/remote.hpp.
-- Connection objects are shared, so they stand in a store and are referred to by their places there;
-- connections of the trantor library are known by numbers. What the server does to its peers and to
-- the controller is an effect. Locks, logging and the event loop are left out.
use praas.Base.{ℕ, Option, none, some, List, [], get_elem?, set}
use praas.Base.Dict.{Dict}
use praas.Base.Int.{ℤ, pos}
use praas.Base.Text.{Text, codes}
use praas.Controller.Mailbox.{Payload}
use praas.Controller.WorkQueue.{RemoteType}
use praas.Message.Parser.{MessageVariants}
use praas.Outcome.{Outcome, done, undefined, Action, onto}
pub mod Receiving
pub mod Sending

pub data Status : Type 0 where
  disconnected : Status
  connecting : Status
  connected : Status

-- `parsed_msg` is none where the variant holds `std::monostate`.
pub record Connection : Type 0 where
  pub status : Status
  pub kind : RemoteType
  pub id : Option Text
  pub conn : Option ℕ
  pub ip_address : Text
  pub port : ℤ
  pub cur_msg : List ℕ
  pub parsed_msg : Option MessageVariants
  pub bytes_to_read : ℕ
  pub pendings_msgs : List (List ℕ × Payload)

-- What the server does: bytes that it sends, messages that it hands to the controller with their
-- payloads, updates of the application, and connections that it starts.
pub data Effect : Type 0 where
  sent : ℕ → List ℕ → Effect
  dataplane_message : List ℕ → Payload → Effect
  controlplane_message : List ℕ → Payload → Effect
  remote_message : List ℕ → Payload → Text → Effect
  update_application : ℤ → Text → Effect
  start_client : ℕ → Text → ℤ → Effect

pub record TcpServer : Type 0 where
  pub process_id : Text
  pub connections : List Connection
  pub connection_data : Dict ℕ
  pub contexts : ℕ → Option ℕ
  pub data_plane : Option ℕ
  pub control_plane : Option ℕ

abbrev pub dataplane_id : Text
dataplane_id = codes "DATA_PLANE"

abbrev pub controlplane_id : Text
controlplane_id = codes "CONTROL_PLANE"

-- A method of the connection object at a place.
abbrev pub on_connection : {A : Type 0} → ℕ → Action Effect Connection A → Action Effect TcpServer A
on_connection r method s = elim (get_elem? s.connections r) [
  | none ↦ undefined
  | some c ↦ onto (λ d. record s { connections = set s.connections r d }) (method c)
]

-- `Connection(status, type, id, conn)` and the form with an address.
abbrev pub new_connection : Status → RemoteType → Option Text → Option ℕ → Connection
new_connection status kind id conn = record {
  status = status;
  kind = kind;
  id = id;
  conn = conn;
  ip_address = [];
  port = pos 0;
  cur_msg = [];
  parsed_msg = none;
  bytes_to_read = 0;
  pendings_msgs = [];
}
