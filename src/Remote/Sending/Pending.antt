-- ===== src/Remote/Sending/Pending.antt =====
-- Messages for a process that is not connected yet.
use praas.Base.{
  ℕ, refl, Option, if◌then◌else◌, ◌==◌, ◌≡◌, ap, sym, none, some, List, [], ◌∷◌, ◌++◌, arith,
}
use mathlib.Core.List.{append_assoc, append-nil}
use praas.Base.Text.{Text}
use praas.Controller.Mailbox.{Payload}
use praas.Message.Builders.{connection_message}
use praas.Message.ProcessConnection.{ProcessConnection}
use praas.Outcome.{done, Action, ◌>>◌, pure}
use praas.Remote.{
  Status, disconnected, connecting, connected, Connection, Effect, sent, start_client,
}
use praas.Remote.Sending.{connect, store_pending, send_or_store, send_pending, client_connected}
use praas.Result.{ok}

-- Calls of put_message and invocation_request for one process, with their filled messages.
abbrev pub send_each : ℕ → List (List ℕ × Payload) → Action Effect Connection (Unit {0})
send_each r [] = pure tt
send_each r ((msg, payload) ∷ rest) = do send_or_store r msg payload; send_each r rest

abbrev pub with_pending : Status → List (List ℕ × Payload) → Connection → Connection
with_pending status ms c = record c { status = status; pendings_msgs = ms }

-- While the connection is on its way, messages are kept behind those that are kept already.
stored_lem :
    (r : ℕ) (ms kept : List (List ℕ × Payload)) (c : Connection)
    → c.conn ≡ none
    → send_each r ms (with_pending connecting kept c)
      ≡ done tt (with_pending connecting (kept ++ ms) c) []
unfolding send_or_store store_pending
stored_lem r [] kept c e =
    ap (λ l. done tt (with_pending connecting l c) []) (sym (append-nil kept))
stored_lem r ((msg, payload) ∷ ms) kept c e = ground (
  arith,
  stored_lem r ms (kept ++ (msg, payload) ∷ []) c e,
  append_assoc kept ((msg, payload) ∷ []) ms,
)

-- Once the connection is up, the process sends its registration and what was kept.
client_connected_lem :
    (process_id : Text) (conn : ℕ) (req : ProcessConnection) (c : Connection)
    → connection_message process_id ≡ ok req
    → client_connected process_id conn c
      ≡ done tt
          (record c { status = connected; conn = some conn; pendings_msgs = [] })
          (sent conn req.buf ∷ send_pending conn c.pendings_msgs)
unfolding client_connected
client_connected_lem process_id conn req c e = ground (arith, e)

-- The bytes that go through a connection, if all effects are sends through it.
abbrev pub stream : ℕ → List Effect → Option (List ℕ)
stream conn [] = some []
stream conn (sent c bytes ∷ es) = elim (stream conn es) [
  | none ↦ none
  | some behind ↦ if c == conn then some (bytes ++ behind) else none
]
stream conn (_ ∷ es) = none

-- Messages with their payloads, one behind the other.
abbrev pub joined : List (List ℕ × Payload) → List ℕ
joined [] = []
joined ((msg, payload) ∷ ms) = msg ++ (payload ++ joined ms)

stream-send_pending :
    (conn : ℕ) (ms : List (List ℕ × Payload))
    → stream conn (send_pending conn ms) ≡ some (joined ms)
unfolding send_pending
stream-send_pending conn [] = refl
stream-send_pending conn ((msg, []) ∷ ms) = ground (arith, stream-send_pending conn ms)
stream-send_pending conn ((msg, b ∷ payload) ∷ ms) = ground (arith, stream-send_pending conn ms)

-- Messages are sent to a process that has no connection and of which none was asked for: the first
-- of them starts the connection, once, nothing is sent before it is up, and then the registration
-- goes out, and behind it nothing but the messages with their payloads, each once and in the order
-- in which they were sent. No message is left.
pub client_connected-send_each :
    (r conn : ℕ) (process_id : Text) (req : ProcessConnection) (msg : List ℕ) (payload : Payload)
    (ms : List (List ℕ × Payload)) (c : Connection)
    → c.conn ≡ none
    → c.status ≡ disconnected
    → c.pendings_msgs ≡ []
    → connection_message process_id ≡ ok req
    → (out : List Effect) × ((do
      send_each r ((msg, payload) ∷ ms)
      client_connected process_id conn)
          c
        ≡ done tt
            (record c { status = connected; conn = some conn; pendings_msgs = [] })
            (start_client r c.ip_address c.port ∷ sent conn req.buf ∷ out))
      × (stream conn out ≡ some (msg ++ (payload ++ joined ms)))
unfolding send_or_store store_pending connect
client_connected-send_each r conn process_id req msg payload ms c e d p q = (
  send_pending conn ((msg, payload) ∷ ms),
  ground (
    arith,
    stored_lem r ms ((msg, payload) ∷ []) c e,
    client_connected_lem process_id conn req (with_pending connecting ((msg, payload) ∷ ms) c) q,
  ),
  stream-send_pending conn ((msg, payload) ∷ ms),
)
