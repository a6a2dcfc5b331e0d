-- ===== src/Remote/Receiving.antt =====
-- What the server of a process reads from a connection: _handle_message and its handlers,
-- process/controller/src/remote.cpp. The buffer is a parameter, and it is threaded through.
use praas.Base.{
  ℕ, zero, suc, ◌==◌, ◌^◌, ltb, leb, Bool, true, false, ◌&&◌, Option, none, some, List, [], ◌∷◌,
  ◌++◌, take, length, get_elem?, if◌then◌else◌,
}
use praas.Base.Dict.{find, assign}
use praas.Base.Int.{ℤ, to_word}
use praas.Base.Text.{Text, codes, text_eq}
use praas.Controller.Mailbox.{Payload}
use praas.Controller.WorkQueue.{RemoteType}
use praas.Controller.WorkQueue
use praas.Message.ApplicationUpdate
use praas.Message.ApplicationUpdate.{ApplicationUpdate}
use praas.Message.Builders.{connection_message}
use praas.Message.Header.{buf_size, total_length}
use praas.Message.InvocationRequest
use praas.Message.InvocationRequest.{InvocationRequest}
use praas.Message.InvocationResult.{InvocationResult}
use praas.Message.PutMessage.{PutMessage}
use praas.Message.Parser
use praas.Message.Parser.{MessageVariants, parse}
use praas.Message.ProcessConnection.{ProcessConnection, process_name}
use praas.Outcome.{
  Outcome, done, thrown, undefined, bad_optional_access, Action, ◌>>=◌, ◌>>◌, after, continue, pure,
  lift, modify, effect, onto,
}
use praas.Remote.{
  Status, disconnected, connected, Connection, Effect, sent, dataplane_message,
  controlplane_message, remote_message, update_application, TcpServer, dataplane_id,
  controlplane_id, on_connection, new_connection,
}
use praas.Wire.Buffer.{MsgBuffer}
pub mod Registering

-- `size_t` from the `int32_t` of a message.
unfoldable pub size_of : ℤ → ℕ
size_of z = to_word (2 ^ 64) z

-- Where an invocation goes, by the kind of the connection.
unfoldable pub hand_over : Payload → Action Effect Connection (Unit {0})
hand_over payload c = elim c.kind [
  | WorkQueue.data_plane ↦ done tt c (dataplane_message c.cur_msg payload ∷ [])
  | WorkQueue.control_plane ↦ done tt c (controlplane_message c.cur_msg payload ∷ [])
  | _ ↦ elim c.id [
    | none ↦ thrown bad_optional_access c []
    | some id ↦ done tt c (remote_message c.cur_msg payload id ∷ [])
  ]
]

-- Where results and messages of the mailbox go.
unfoldable pub hand_remote : Payload → Action Effect Connection (Unit {0})
hand_remote payload c = elim c.id [
  | none ↦ thrown bad_optional_access c []
  | some id ↦ done tt c (remote_message c.cur_msg payload id ∷ [])
]

-- `conn->ip_address`, `conn->port`: an update of an address that is known, or a new one.
unfoldable pub with_address : Text → ℤ → Connection → Connection
with_address ip port c = record c { ip_address = ip; port = port }

unfoldable pub add_connection : Text → Connection → TcpServer → TcpServer
add_connection name c s = record s {
  connections = s.connections ++ c ∷ [];
  connection_data = assign name (length s.connections) s.connection_data;
}

unfoldable pub handle_app_update : ApplicationUpdate → Action Effect TcpServer (Unit {0})
unfolding with_address add_connection
handle_app_update msg s =
    let id = ApplicationUpdate.process_id msg in
    let ip = ApplicationUpdate.ip_address msg in
    let port = ApplicationUpdate.port msg in
    (do
      effect (update_application (ApplicationUpdate.status_change msg) id ∷ [])
      elim (find id s.connection_data) [
        | some r ↦ on_connection r (modify (with_address ip port))
        | none ↦ modify (
            add_connection id
              (with_address ip port (new_connection disconnected WorkQueue.process (some id) none)))
      ])
      s

unfoldable pub set_context : ℕ → ℕ → TcpServer → TcpServer
set_context conn r s = record s { contexts = λ c. if c == conn then some r else s.contexts c }

-- The planes, when the one of this name registers.
unfoldable pub note_plane : Text → ℕ → TcpServer → TcpServer
note_plane name r s =
    if text_eq name dataplane_id
    then record s { data_plane = some r }
    else if text_eq name controlplane_id
    then record s { control_plane = some r }
    else s

unfoldable pub new_remote : Text → ℕ → Connection
new_remote name conn =
    if text_eq name dataplane_id
    then new_connection connected WorkQueue.data_plane none (some conn)
    else if text_eq name controlplane_id
    then new_connection connected WorkQueue.control_plane none (some conn)
    else new_connection connected WorkQueue.process (some name) (some conn)

-- The registration of a name that is known, or of a new one.
unfoldable pub register : ℕ → Text → Action Effect TcpServer (Unit {0})
unfolding note_plane set_context new_remote add_connection
register conn name s = elim (find name s.connection_data) [
  | some r ↦
      (do
        on_connection r (modify (λ c. record c { conn = some conn; status = connected }))
        modify (note_plane name r)
        modify (set_context conn r))
        s
  | none ↦
      (let r = length s.connections in
        done tt
          (set_context conn r (note_plane name r (add_connection name (new_remote name conn) s)))
          [])
]

unfoldable pub handle_connection : ℕ → ProcessConnection → Action Effect TcpServer (Unit {0})
unfolding register
handle_connection conn msg = do
  register conn (process_name msg)
  req ← lift (connection_message (codes "CORRECT"))
  effect (sent conn req.buf ∷ [])

module _ {B : Type 0} (m : MsgBuffer B) where
  abbrev pub Reading : Type 0
  Reading = B × TcpServer

  abbrev pub retrieve : ℕ → Action Effect Reading (Unit {0})
  retrieve n (b, s) = done tt (m.retrieve n b, s) []

  abbrev pub outside : {A : Type 0} → Action Effect TcpServer A → Action Effect Reading A
  outside method (b, s) = onto (λ t. (b, t)) (method s)

  -- "We just started": the length is noted and the bytes of the message are taken.
  unfoldable pub begin_payload : ℕ → ℕ → Connection → Action Effect Reading (Unit {0})
  begin_payload r announced c =
      if c.bytes_to_read == 0
      then (do
        outside (on_connection r (modify (λ d. record d { bytes_to_read = announced })))
        retrieve buf_size)
      else pure tt

  -- The payload is handed on once it is there.
  unfoldable pub take_payload :
      ℕ → ℕ → (Payload → Action Effect Connection (Unit {0})) → Action Effect Reading Bool
  take_payload r wanted hand (b, s) =
      if leb wanted (m.readable_bytes b)
      then (do
        retrieve wanted
        outside (on_connection r (hand (take wanted (m.peek b))))
        outside (on_connection r (modify (λ d. record d { bytes_to_read = 0 })))
        pure true)
          (b, s)
      else done false (b, s) []

  -- `connection.bytes_to_read` after the start.
  abbrev pub bytes_wanted : ℕ → Connection → ℕ
  bytes_wanted announced c = if c.bytes_to_read == 0 then announced else c.bytes_to_read

  unfoldable pub handle_invocation : ℕ → InvocationRequest → Connection → Action Effect Reading Bool
  unfolding begin_payload take_payload size_of hand_over
  handle_invocation r msg c = do
    begin_payload r (size_of (InvocationRequest.payload_size msg)) c
    take_payload r (size_of (InvocationRequest.payload_size msg)) hand_over

  unfoldable pub handle_invocation_result :
      ℕ → InvocationResult → Connection → Action Effect Reading Bool
  unfolding begin_payload take_payload size_of hand_remote
  handle_invocation_result r msg c = do
    begin_payload r (size_of (total_length msg.buf)) c
    take_payload r (bytes_wanted (size_of (total_length msg.buf)) c) hand_remote

  unfoldable pub handle_put_message : ℕ → PutMessage → Connection → Action Effect Reading Bool
  unfolding begin_payload take_payload size_of hand_remote
  handle_put_message r msg c = do
    begin_payload r (size_of (total_length msg.buf)) c
    take_payload r (bytes_wanted (size_of (total_length msg.buf)) c) hand_remote

  -- A message of a connection that is not registered.
  unfoldable pub handle_unknown : ℕ → MessageVariants → Action Effect Reading Bool
  unfolding handle_connection
  handle_unknown conn (MessageVariants.process_connection msg) = do
    outside (handle_connection conn msg)
    retrieve buf_size
    pure true
  handle_unknown conn _ = do retrieve buf_size; pure true

  -- The visit of a new message.
  unfoldable pub handle_new : ℕ → Connection → MessageVariants → Action Effect Reading Bool
  unfolding handle_invocation handle_invocation_result handle_put_message handle_app_update
  handle_new r c (MessageVariants.invocation_request msg) = handle_invocation r msg c
  handle_new r c (MessageVariants.invocation_result msg) = handle_invocation_result r msg c
  handle_new r c (MessageVariants.put_message msg) = handle_put_message r msg c
  handle_new r c (MessageVariants.application_update msg) = do
    outside (handle_app_update msg)
    retrieve buf_size
    pure true
  handle_new r c _ = do retrieve buf_size; pure true

  -- The visit of a message whose payload has come; what it returns is dropped.
  unfoldable pub handle_rest : ℕ → Connection → Option MessageVariants → Action Effect Reading Bool
  unfolding handle_invocation handle_invocation_result handle_put_message
  handle_rest r c (some (MessageVariants.invocation_request msg)) = do
    dropped ← handle_invocation r msg c
    pure false
  handle_rest r c (some (MessageVariants.invocation_result msg)) = do
    dropped ← handle_invocation_result r msg c
    pure false
  handle_rest r c (some (MessageVariants.put_message msg)) = do
    dropped ← handle_put_message r msg c
    pure false
  handle_rest r c _ = pure false

  -- The bytes of a new message on a connection object, and what they parse to.
  unfoldable pub read_message : ℕ → Action Effect Reading MessageVariants
  read_message r (b, s) =
      let bytes = take buf_size (m.peek b) in
      (do
        outside (on_connection r (modify (λ d. record d { cur_msg = bytes })))
        msg ← lift (parse bytes)
        outside (on_connection r (modify (λ d. record d { parsed_msg = some msg })))
        pure msg)
        (b, s)

  -- One round of _handle_message: whether it goes on with what is left in the buffer.
  unfoldable pub handle_next : ℕ → Action Effect Reading Bool
  unfolding handle_unknown handle_new handle_rest read_message
  handle_next conn (b, s) = elim (s.contexts conn) [
    | none ↦
        if ltb (m.readable_bytes b) buf_size
        then done false (b, s) []
        else (do msg ← lift (parse (take buf_size (m.peek b))); handle_unknown conn msg) (b, s)
    | some r ↦ elim (get_elem? s.connections r) [
      | none ↦ undefined
      | some c ↦
          if ltb 0 c.bytes_to_read
          then (if ltb (m.readable_bytes b) c.bytes_to_read
              then done false (b, s) []
              else handle_rest r c c.parsed_msg (b, s))
          else if ltb (m.readable_bytes b) buf_size
          then done false (b, s) []
          else (do msg ← read_message r; handle_new r c msg) (b, s)
    ]
  ]

  -- The recursion of _handle_message, with fuel; `false` says that the fuel ran out.
  unfoldable pub handle_message : ℕ → ℕ → Action Effect Reading Bool
  unfolding handle_next
  handle_message zero conn = pure false
  handle_message (suc fuel) conn = do
    consumed ← handle_next conn
    λ (b, s).
        let rest = handle_message fuel conn (b, s) in
        if consumed && ltb 0 (m.readable_bytes b) then rest else done true (b, s) []
