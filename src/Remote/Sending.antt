-- ===== src/Remote/Sending.antt =====
-- What the controller sends through the server of a process: put_message, invocation_request,
-- invocation_result and _connect of process/controller/src/remote.cpp.
use praas.Base.{
  ℕ, ltb, Bool, true, false, Option, none, some, List, [], ◌∷◌, ◌++◌, length, if◌then◌else◌, ◌^◌,
  ◌%◌,
}
use praas.Base.Dict.{find}
use praas.Base.Int.{ℤ, int32}
use praas.Base.Text.{Text}
use praas.Controller.Mailbox.{Payload}
use praas.Controller.WorkQueue.{RemoteType}
use praas.Controller.WorkQueue
use praas.Message.Builders.{request_message, result_message, put_message_from, connection_message}
use praas.Message.InvocationRequest.{InvocationRequest}
use praas.Message.InvocationResult.{InvocationResult}
use praas.Message.PutMessage.{PutMessage}
use praas.Message.ProcessConnection.{ProcessConnection}
use praas.Outcome.{
  Outcome, done, thrown, undefined, Action, ◌>>=◌, ◌>>◌, after, continue, lift, modify, effect,
  onto,
}
use praas.Remote.{
  Status, disconnected, connecting, connected, Connection, Effect, sent, start_client, TcpServer,
  on_connection,
}
pub mod Pending

abbrev pub is_disconnected : Status → Bool
is_disconnected disconnected = true
is_disconnected _ = false

-- _connect, up to what the client's callback does.
unfoldable pub connect : ℕ → Action Effect Connection (Unit {0})
connect r c = done tt (record c { status = connecting }) (start_client r c.ip_address c.port ∷ [])

-- The message is kept until there is a connection; the first one starts it.
unfoldable pub store_pending : ℕ → List ℕ → Payload → Action Effect Connection (Unit {0})
unfolding connect
store_pending r msg payload c =
    let d = record c { pendings_msgs = c.pendings_msgs ++ (msg, payload) ∷ [] } in
    if is_disconnected c.status then connect r d else done tt d []

-- The common end of put_message and invocation_request, for a filled message.
unfoldable pub send_or_store : ℕ → List ℕ → Payload → Action Effect Connection (Unit {0})
unfolding store_pending
send_or_store r msg payload c = elim c.conn [
  | none ↦ store_pending r msg payload c
  | some conn ↦ done tt c (sent conn msg ∷ sent conn payload ∷ [])
]

unfoldable pub put_message : Text → Text → Payload → Action Effect TcpServer (Unit {0})
unfolding send_or_store
put_message process_id name payload s = elim (find process_id s.connection_data) [
  | none ↦ done tt s []
  | some r ↦
      (do
        req ← lift (put_message_from name s.process_id (int32 (length payload)))
        on_connection r (send_or_store r req.buf payload))
        s
]

unfoldable pub invocation_request :
    Text → Text → Text → Payload → Action Effect TcpServer (Unit {0})
unfolding send_or_store
invocation_request process_id function_name invocation_id payload s =
    elim (find process_id s.connection_data) [
      | none ↦ done tt s []
      | some r ↦
          (do
            req ← lift (request_message invocation_id function_name (int32 (length payload)))
            on_connection r (send_or_store r req.buf payload))
            s
    ]

-- The connection of a destination.
unfoldable pub destination : RemoteType → Option Text → TcpServer → Option ℕ
destination WorkQueue.data_plane remote s = s.data_plane
destination WorkQueue.control_plane remote s = s.control_plane
destination _ (some id) s = find id s.connection_data
destination _ none s = none

-- The sends of a result; an object without a connection is a null pointer.
unfoldable pub send_result : List ℕ → Payload → Action Effect Connection (Unit {0})
send_result msg payload c = elim c.conn [
  | none ↦ undefined
  | some conn ↦
      done tt c (sent conn msg ∷ (if ltb 0 (length payload) then sent conn payload ∷ [] else []))
]

unfoldable pub invocation_result :
    RemoteType → Option Text → Text → ℤ → Payload → Action Effect TcpServer (Unit {0})
unfolding destination send_result
invocation_result source remote invocation_id return_code payload s =
    elim (destination source remote s) [
      | none ↦ done tt s []
      | some r ↦
          (do
            req ← lift (result_message invocation_id return_code (int32 (length payload)))
            on_connection r (send_result req.buf payload))
            s
    ]

-- The sends of the pending messages.
unfoldable pub send_pending : ℕ → List (List ℕ × Payload) → List Effect
send_pending conn [] = []
send_pending conn ((msg, payload) ∷ rest) =
    sent conn msg
    ∷ ((if ltb 0 (length payload) then sent conn payload ∷ [] else []) ++ send_pending conn rest)

-- The client's callback: the connection is up, or it is lost.
unfoldable pub client_connected : Text → ℕ → Action Effect Connection (Unit {0})
unfolding send_pending
client_connected process_id conn c =
    (do
      modify (λ d. record d { status = connected })
      req ← lift (connection_message process_id)
      effect (sent conn req.buf ∷ [])
      modify (λ d. record d { conn = some conn })
      λ d. done tt (record d { pendings_msgs = [] }) (send_pending conn d.pendings_msgs))
      c

unfoldable pub client_disconnected : Connection → Connection
client_disconnected c = record c { status = disconnected }
