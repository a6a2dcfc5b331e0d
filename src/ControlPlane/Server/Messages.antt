-- ===== src/ControlPlane/Server/Messages.antt =====
-- The messages that the TCP server reads from a connection's buffer, which is threaded through:
-- handle_message and handle_invocation_result of control-plane/src/tcpserver.cpp. `now` is the clock.
use praas.Base.{
  ℕ, zero, suc, ◌==◌, ◌^◌, ltb, leb, Bool, true, false, ◌&&◌, none, some, [], take, if◌then◌else◌,
}
use praas.Base.Int.{to_word}
use praas.Outcome.{done, Action, ◌>>=◌, ◌>>◌, pure, lift, modify, onto}
use praas.ControlPlane.Process.{Effect}
use praas.ControlPlane.Process.Requests.{finish_invocation}
use praas.ControlPlane.Server.{
  with_server, set_context, handle_connection, handle_closure, handle_data_metrics, handle_swap,
}
use praas.ControlPlane.World.{ConnectionData, World, on_process}
use praas.Message.Header.{buf_size, total_length}
use praas.Message.InvocationResult
use praas.Message.InvocationResult.{InvocationResult}
use praas.Message.Parser.{MessageVariants, parse}
use praas.Wire.Buffer.{MsgBuffer}

abbrev pub has_context : ℕ → World → Bool
has_context conn w = elim (w.server.contexts conn) [ none ↦ false | some c ↦ true ]

module _ {B : Type 0} (m : MsgBuffer B) where
  -- The state of a call: the buffer and all else.
  abbrev pub Reading : Type 0
  Reading = B × World

  abbrev pub retrieve : ℕ → Action Effect Reading (Unit {0})
  retrieve n (b, w) = done tt (m.retrieve n b, w) []

  abbrev pub outside : {A : Type 0} → Action Effect World A → Action Effect Reading A
  outside method (b, w) = onto (λ v. (b, v)) (method w)

  -- `size_t` from the `int32_t` of the message.
  unfoldable pub announced_length : InvocationResult → ℕ
  announced_length req = to_word (2 ^ 64) (total_length req.buf)

  -- What the first call for a result does: the message is kept and its bytes are taken.
  unfoldable pub start_result :
      ℕ → ConnectionData → InvocationResult → Action Effect Reading ConnectionData
  unfolding with_server set_context announced_length
  start_result conn data' req (b, w) =
      let started = record data' { bytes_to_read = announced_length req; cur_msg = req.buf } in
      if data'.bytes_to_read == 0
      then done started (m.retrieve buf_size b, with_server (set_context conn started) w) []
      else done data' (b, w) []

  -- The rest of it: the client is answered once all bytes of the output are there.
  unfoldable pub finish_result : ℕ → ConnectionData → InvocationResult → Action Effect Reading Bool
  unfolding with_server set_context finish_invocation
  finish_result conn data' req (b, w) =
      if leb data'.bytes_to_read (m.readable_bytes b)
      then (do
        outside (
            on_process data'.process (
              finish_invocation (InvocationResult.invocation_id req)
                (InvocationResult.return_code req) (take data'.bytes_to_read (m.peek b))))
        retrieve data'.bytes_to_read
        outside (modify (with_server (set_context conn (record data' { bytes_to_read = 0 }))))
        pure true)
          (b, w)
      else done false (b, w) []

  unfoldable pub handle_invocation_result :
      ℕ → ConnectionData → InvocationResult → Action Effect Reading Bool
  unfolding start_result finish_result
  handle_invocation_result conn data' req = do
    started ← start_result conn data' req
    finish_result conn started req

  -- A message of a fixed size: its handler, and its bytes are taken.
  unfoldable pub fixed : Action Effect World (Unit {0}) → Action Effect Reading Bool
  fixed handler = do outside handler; retrieve buf_size; pure true

  -- handle_message with a parsed message of a registered process. The visited variant is const, so
  -- the lambda for a ProcessConnectionPtr&, which is not const, does not match: a registration is
  -- ignored like any other message.
  unfoldable pub handle_variant :
      ℕ → ℕ → ConnectionData → MessageVariants → Action Effect Reading Bool
  unfolding fixed handle_closure handle_data_metrics handle_invocation_result handle_swap
  handle_variant now conn data' (MessageVariants.process_closure buf) = fixed (handle_closure conn)
  handle_variant now conn data' (MessageVariants.dataplane_metrics metrics) = λ (b, w).
      if has_context conn w
      then fixed (handle_data_metrics now data'.process metrics) (b, w)
      else done true (b, w) []
  handle_variant now conn data' (MessageVariants.invocation_result req) =
      handle_invocation_result conn data' req
  handle_variant now conn data' (MessageVariants.swap_confirmation msg) = λ (b, w).
      if has_context conn w
      then fixed (handle_swap data'.process) (b, w)
      else fixed (pure tt) (b, w)
  handle_variant now conn data' _ = fixed (pure tt)

  -- A message of a connection without a process.
  unfoldable pub handle_unknown : ℕ → MessageVariants → Action Effect Reading Bool
  unfolding fixed handle_connection
  handle_unknown conn (MessageVariants.process_connection msg) = fixed (handle_connection conn msg)
  handle_unknown conn _ = fixed (pure tt)

  -- The body of handle_message on a connection: whether a message was consumed.
  unfoldable pub handle_next : ℕ → ℕ → Action Effect Reading Bool
  unfolding parse handle_variant handle_unknown
  handle_next now conn (b, w) = elim (w.server.contexts conn) [
    | none ↦
        if ltb (m.readable_bytes b) buf_size
        then done false (b, w) []
        else (do msg ← lift (parse (take buf_size (m.peek b))); handle_unknown conn msg) (b, w)
    | some data' ↦
        if ltb 0 data'.bytes_to_read
        then (do msg ← lift (parse data'.cur_msg); handle_variant now conn data' msg) (b, w)
        else if ltb (m.readable_bytes b) buf_size
        then done false (b, w) []
        else (do msg ← lift (parse (take buf_size (m.peek b))); handle_variant now conn data' msg)
            (b, w)
  ]

  -- The recursion of handle_message, with fuel; `false` says that the fuel ran out.
  unfoldable pub handle_message : ℕ → ℕ → ℕ → Action Effect Reading Bool
  unfolding handle_next
  handle_message zero now conn = pure false
  handle_message (suc fuel) now conn = do
    consumed ← handle_next now conn
    λ (b, w).
        let rest = handle_message fuel now conn (b, w) in
        if consumed && ltb 0 (m.readable_bytes b) then rest else done true (b, w) []
