-- ===== src/Controller/Answers/Carried.antt =====
-- The packets of an answer, as the worker reads them from its channel.
use praas.Base.{false, ℕ, ◌<◌, ◌≤◌, ◌≡◌, ◌^◌, List, ◌++◌, length, arith, sym, ap, ◌∙◌}
use praas.Base.Int.{ℤ, pos, Fits}
use praas.Base.Text.{Text}
use praas.Controller.Mailbox.{Payload}
use praas.Controller.Replies.{message_reply, result_reply}
use praas.Controller.Answers.{
  message_bytes, message_reply-eq, result_bytes, result_reply-eq, parse-message_reply,
  parse-result_reply,
}
use praas.Ipc.Channel.{Queue, send, receive, complete}
use praas.Ipc.Channel.RoundTrip.{ready, receive-send}
use praas.Ipc.GenericRequest
use praas.Ipc.GenericRequest.{GenericRequest}
use praas.Ipc.Header.{length-new_buffer, set_total_length}
use praas.Ipc.InvocationResult
use praas.Ipc.InvocationResult.{InvocationResult}
use praas.Ipc.Parser.{parse}
use praas.Ipc.Parser
use praas.Result.{ok, ok-injective}
use praas.Wire.Fields.{fields}
use praas.Wire.Names.{IsName}

-- Whatever was read before and whatever stands behind, `receive` reads the packets as one message
-- with the payload.
abbrev pub Carries : Queue → List ℕ → Payload → Type 0
Carries packets header payload =
    (last : List ℕ) (rest : Queue)
    → receive (ready last) (packets ++ rest) ≡ ok (complete payload, ready header, rest)

-- The packets are the answer to a `get`: the message with its sender and its key.
pub data HoldsMessage (source key : Text) (payload : Payload) (packets : Queue) : Type 0 where
  message :
      (header : List ℕ) (m : GenericRequest)
      → Carries packets header payload
      → parse header ≡ ok (Parser.get_request m)
      → GenericRequest.process_id m ≡ source
      → GenericRequest.name m ≡ key
      → GenericRequest.state m ≡ false
      → HoldsMessage source key payload packets

-- The packets are the answer to an invocation: its id, the return code and the output.
pub data HoldsResult (id : Text) (code : ℤ) (payload : Payload) (packets : Queue) : Type 0 where
  result :
      (header : List ℕ) (m : InvocationResult)
      → Carries packets header payload
      → parse header ≡ ok (Parser.invocation_result m)
      → InvocationResult.invocation_id m ≡ id
      → InvocationResult.return_code m ≡ code
      → InvocationResult.buffer_length m ≡ pos (length payload)
      → HoldsResult id code payload packets

length-message_bytes : (id name : Text) → length (message_bytes id name) ≡ 128
unfolding message_bytes
length-message_bytes id name = simp (fields, length-new_buffer)

length-result_bytes : (id : Text) (code : ℤ) (len : ℕ) → length (result_bytes id code len) ≡ 128
unfolding result_bytes
length-result_bytes id code len = simp (fields, length-new_buffer)

send-Carries :
    (msg_size : ℕ) (reply : List ℕ) (payload : Payload)
    → 128 ≤ msg_size
    → length reply ≡ 128
    → length payload < 2 ^ 31
    → Carries (send msg_size reply payload) (set_total_length (pos (length payload)) reply) payload
send-Carries msg_size reply payload room full small last rest =
    receive-send msg_size last reply rest room full payload small

pub message_reply-HoldsMessage :
    (msg_size : ℕ) (source key : Text) (payload : Payload)
    → 128 ≤ msg_size
    → IsName 32 source
    → IsName 32 key
    → length payload < 2 ^ 31
    → (reply : List ℕ) × (message_reply source key ≡ ok reply)
      × HoldsMessage source key payload (send msg_size reply payload)
message_reply-HoldsMessage msg_size source key payload room hs hk small =
    let (reply, m, made, parsed, sender, named, plain, total) =
      parse-message_reply source key (length payload) hs hk (omega (arith, small)) in
    let same : message_bytes source key ≡ reply =
      ok-injective (sym (message_reply-eq source key (length payload) hs hk) ∙ made) in
    (
      reply,
      made,
      message (set_total_length (pos (length payload)) reply) m
          (send-Carries msg_size reply payload room
            (ap length (sym same) ∙ length-message_bytes source key) small)
          parsed sender named plain,
    )

pub result_reply-HoldsResult :
    (msg_size : ℕ) (id : Text) (code : ℤ) (payload : Payload)
    → 128 ≤ msg_size
    → IsName 16 id
    → Fits (2 ^ 32) code
    → length payload < 2 ^ 31
    → (reply : List ℕ) × (result_reply id code (length payload) ≡ ok reply)
      × HoldsResult id code payload (send msg_size reply payload)
result_reply-HoldsResult msg_size id code payload room hi hc small =
    let (reply, m, made, parsed, named, coded, sized, total) =
      parse-result_reply id code (length payload) hi hc (omega (arith, small)) in
    let same : result_bytes id code (length payload) ≡ reply =
      ok-injective (sym (result_reply-eq id code (length payload) hi) ∙ made) in
    (
      reply,
      made,
      result (set_total_length (pos (length payload)) reply) m
          (send-Carries msg_size reply payload room
            (ap length (sym same) ∙ length-result_bytes id code (length payload)) small)
          parsed named coded sized,
    )
