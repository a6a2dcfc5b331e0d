-- ===== src/ControlPlane/Server/Results.antt =====
-- The result of an invocation on its way through the server: at once, or in two pieces.
use mathlib.Core.List.{append_assoc}
use praas.Base.{
  take_all-append, drop_all-append, ℕ, ◌<◌, ◌^◌, ltb, ◌≡◌, refl, ap, ◌∙◌, true, false, some, List,
  [], ◌++◌, length, length-append, drop, take, arith, get_elem?, set,
}
use praas.Base.Int.{ℤ, pos, to_word, Fits}
use praas.Message.Builders.{result_message}
use praas.Message.RoundTrip.Outcome.{result_message-IsResult}
use praas.Wire.Names.{IsName}
use praas.Base.Text.{Text}
use praas.Outcome.{after-nil, done}
use praas.ControlPlane.Process.{Process, Effect}
use praas.ControlPlane.Process.Requests.{finish_invocation}
use praas.ControlPlane.Server.{with_server, set_context}
use praas.ControlPlane.Server.Messages.{
  announced_length, start_result, finish_result, handle_invocation_result, handle_variant,
  handle_next,
}
use praas.ControlPlane.World.{ConnectionData, World}
use praas.Message.Header.{buf_size, total_length}
use praas.Message.InvocationResult
use praas.Message.InvocationResult.{InvocationResult}
use praas.Message.Parser.{MessageVariants, invocation_result, parse}
use praas.Result.{ok}
use praas.Wire.Buffer.{MsgBuffer, IsBuffer}

-- A message that is in the buffer whole, on a connection that awaits none.
next_parsed :
    {B : Type 0} (m : MsgBuffer B) (now conn : ℕ) (b : B) (w : World) (c : ConnectionData)
    (msg : MessageVariants)
    → w.server.contexts conn ≡ some c
    → c.bytes_to_read ≡ 0
    → ltb (m.readable_bytes b) buf_size ≡ false
    → parse (take buf_size (m.peek b)) ≡ ok msg
    → handle_next m now conn (b, w) ≡ handle_variant m now conn c msg (b, w)
unfolding handle_next
next_parsed m now conn b w c msg known idle enough parsed =
    ground (arith, after-nil (handle_variant m now conn c msg (b, w)))

-- The context while the output is awaited, and the worlds then and after the answer.
abbrev awaiting : InvocationResult → List ℕ → ConnectionData → ConnectionData
awaiting req output c = record c { bytes_to_read = length output; cur_msg = req.buf }

abbrev pub begun : ℕ → InvocationResult → List ℕ → World → ConnectionData → World
begun conn req output w c = with_server (set_context conn (awaiting req output c)) w

abbrev pub answered_world : ℕ → InvocationResult → List ℕ → World → ConnectionData → Process → World
answered_world conn req output w c q =
    with_server (set_context conn (record (awaiting req output c) { bytes_to_read = 0 }))
      (record (begun conn req output w c) { processes = set w.processes c.process q })

module _ {B : Type 0} (m : MsgBuffer B) (laws : IsBuffer m) (now conn : ℕ) (req : InvocationResult)
    (output : List ℕ) (w : World) (c : ConnectionData) (p q : Process) (es : List Effect) where
  announced_length-eq :
      total_length req.buf ≡ pos (length output)
      → length output < 2 ^ 31
      → announced_length m req ≡ length output
  unfolding announced_length to_word
  announced_length-eq e h = rw e (omega arith)

  -- The answer once the whole output is in the buffer.
  finish_result_lem :
      (b : B) (rest : List ℕ)
      → m.peek b ≡ output ++ rest
      → get_elem? w.processes c.process ≡ some p
      → finish_invocation
          (InvocationResult.invocation_id req)
          (InvocationResult.return_code req)
          output
          p
        ≡ done tt q es
      → finish_result m conn (awaiting req output c) req (b, (begun conn req output w c))
        ≡ done true (m.retrieve (length output) b, (answered_world conn req output w c q)) es
  unfolding finish_result with_server
  finish_result_lem b rest e here f = ground (
    arith,
    laws.readable b,
    length-append output rest,
    take_all-append (length output) output rest refl,
  )

  begin_lem :
      (b : B) (more : List ℕ)
      → parse req.buf ≡ ok (invocation_result req)
      → length req.buf ≡ 70
      → w.server.contexts conn ≡ some c
      → c.bytes_to_read ≡ 0
      → m.peek b ≡ req.buf ++ more
      → handle_next m now conn (b, w) ≡ handle_invocation_result m conn c req (b, w)
  unfolding handle_variant
  begin_lem b more parsed size known idle e =
      let whole : take buf_size (m.peek b) ≡ req.buf =
        ap (take buf_size) e ∙ take_all-append 70 req.buf more size in
      let enough : ltb (m.readable_bytes b) buf_size ≡ false =
        ground (arith, laws.readable b, length-append req.buf more) in
      next_parsed m now conn b w c (invocation_result req) known idle enough
        (ap parse whole ∙ parsed)

  resume_lem :
      (b : B)
      → parse req.buf ≡ ok (invocation_result req)
      → 0 < length output
      → handle_next m now conn (b, (begun conn req output w c))
        ≡ finish_result m conn (awaiting req output c) req (b, (begun conn req output w c))
  unfolding handle_next handle_variant handle_invocation_result start_result with_server set_context
  resume_lem b parsed some_bytes = ground arith

  started_lem :
      (b : B)
      → total_length req.buf ≡ pos (length output)
      → length output < 2 ^ 31
      → c.bytes_to_read ≡ 0
      → handle_invocation_result m conn c req (b, w)
        ≡ finish_result m conn
            (awaiting req output c)
            req
            (m.retrieve 70 b, (begun conn req output w c))
  unfolding handle_invocation_result start_result
  started_lem b total short idle = ground (arith, announced_length-eq total short)

  behind :
      (b : B) (more : List ℕ)
      → length req.buf ≡ 70
      → m.peek b ≡ req.buf ++ more
      → m.peek (m.retrieve 70 b) ≡ more
  behind b more size e = laws.retrieved 70 b ∙ ap (drop 70) e ∙ drop_all-append 70 req.buf more size

  unfinished_lem :
      (b : B) (part : List ℕ)
      → m.peek b ≡ part
      → length part < length output
      → finish_result m conn (awaiting req output c) req (b, (begun conn req output w c))
        ≡ done false (b, (begun conn req output w c)) []
  unfolding finish_result
  unfinished_lem b part e less = ground (arith, laws.readable b)

  -- The message of a result is in the buffer with an output of at least one byte, at the connection
  -- of a process that the result answers. If the whole output is behind it, the result is answered
  -- at once. If only a part of the output is there, the call keeps the message and takes its bytes,
  -- and the next call, with the output whole, answers. The answer is the same, and so is the world
  -- that is left.
  pub result_arrives :
      (b1 b2 b3 : B) (part rest rest' : List ℕ)
      → parse req.buf ≡ ok (invocation_result req)
      → length req.buf ≡ 70
      → total_length req.buf ≡ pos (length output)
      → 0 < length output
      → length output < 2 ^ 31
      → w.server.contexts conn ≡ some c
      → c.bytes_to_read ≡ 0
      → get_elem? w.processes c.process ≡ some p
      → finish_invocation
          (InvocationResult.invocation_id req)
          (InvocationResult.return_code req)
          output
          p
        ≡ done tt q es
      → m.peek b1 ≡ req.buf ++ output ++ rest
      → m.peek b2 ≡ req.buf ++ part
      → length part < length output
      → m.peek b3 ≡ output ++ rest'
      → (handle_next m now conn (b1, w)
          ≡ done true
              (
                m.retrieve (length output) (m.retrieve 70 b1),
                (answered_world conn req output w c q),
              )
              es)
        × (handle_next m now conn (b2, w)
            ≡ done false (m.retrieve 70 b2, (begun conn req output w c)) [])
        × (handle_next m now conn (b3, (begun conn req output w c))
            ≡ done true (m.retrieve (length output) b3, (answered_world conn req output w c q)) es)
  result_arrives b1 b2 b3 part rest rest' parsed size total some_bytes short known idle here f e1 e2
        less e3 =
      (
        begin_lem b1 (output ++ rest) parsed size known idle (e1 ∙ append_assoc req.buf output rest)
            ∙ started_lem b1 total short idle
            ∙ finish_result_lem (m.retrieve 70 b1) rest
                (behind b1 (output ++ rest) size (e1 ∙ append_assoc req.buf output rest)) here f,
        begin_lem b2 part parsed size known idle e2
            ∙ started_lem b2 total short idle
            ∙ unfinished_lem (m.retrieve 70 b2) part (behind b2 part size e2) less,
        resume_lem b3 parsed some_bytes ∙ finish_result_lem b3 rest' e3 here f,
      )

-- A process sends the result of an invocation, an output of at least one byte, through its
-- connection, on which no other result is on its way. If all bytes are in the buffer, the result is
-- answered at once. If only a part of the output is there, the call keeps the message, and the next
-- call, with the output whole, answers. Both ways the process answers by the same effects, and the
-- same world is left.
pub result_message_arrives :
    {B : Type 0} (m : MsgBuffer B) (now conn : ℕ) (req : InvocationResult) (id : Text) (code : ℤ)
    (output part rest rest' : List ℕ) (b1 b2 b3 : B) (w : World) (c : ConnectionData)
    (p q : Process) (es : List Effect)
    → IsBuffer m
    → IsName 16 id
    → Fits (2 ^ 32) code
    → 0 < length output
    → length output < 2 ^ 31
    → result_message id code (pos (length output)) ≡ ok req
    → w.server.contexts conn ≡ some c
    → c.bytes_to_read ≡ 0
    → get_elem? w.processes c.process ≡ some p
    → finish_invocation id code output p ≡ done tt q es
    → m.peek b1 ≡ req.buf ++ output ++ rest
    → m.peek b2 ≡ req.buf ++ part
    → length part < length output
    → m.peek b3 ≡ output ++ rest'
    → (handle_next m now conn (b1, w)
        ≡ done true
            (m.retrieve (length output) (m.retrieve 70 b1), answered_world conn req output w c q)
            es)
      × (handle_next m now conn (b2, w)
          ≡ done false (m.retrieve 70 b2, begun conn req output w c) [])
      × (handle_next m now conn (b3, begun conn req output w c)
          ≡ done true (m.retrieve (length output) b3, answered_world conn req output w c q) es)
result_message_arrives m now conn req id code output part rest rest' b1 b2 b3 w c p q es laws hi hc
      some_bytes short sent_as known idle here f e1 e2 less e3 =
    let r = result_message-IsResult id code (pos (length output)) req hi hc (omega arith) sent_as in
    result_arrives m laws now conn req output w c p q es b1 b2 b3 part rest rest' r.parsed r.size
      r.total some_bytes short known idle here (ground (arith, r.named, r.coded)) e1 e2 less e3
