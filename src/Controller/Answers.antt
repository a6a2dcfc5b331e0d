-- ===== src/Controller/Answers.antt =====
-- What a worker reads in the answers of the controller, with the total length that the channel adds.
pub mod Carried
use praas.Base.{ℕ, ◌≡◌, ◌^◌, List, length, arith, ◌∙◌, ap, false}
use praas.Base.Int.{ℤ, pos, Fits}
use praas.Base.Text.{Text}
use praas.Controller.Replies.{message_reply, result_reply}
use praas.Ipc.GenericRequest
use praas.Ipc.GenericRequest.{GenericRequest}
use praas.Ipc.Header.{
  total_length, set_total_length, length-new_buffer, fresh_kind, new_buffer, kind_value,
}
use praas.Ipc.Header
use praas.Ipc.InvocationResult
use praas.Ipc.InvocationResult.{InvocationResult}
use praas.Ipc.Parser.{parse, parse_as}
use praas.Ipc.Parser
use praas.Ipc.RoundTrip.Typed.{parse-typed}
use praas.Result.{ok}
use praas.Wire.Bytes.{read_at}
use praas.Wire.Words.{put_int, get_int, put_byte, get_byte}
use praas.Wire.Names.{IsName, put_name, strncpy, view_cached, measured}
use praas.Wire.Fields.{fields}

result_bytes : Text → ℤ → ℕ → List ℕ
result_bytes id code len =
    put_int 4 22 (pos len)
      (put_int 4 26 code (put_name 16 6 id (new_buffer Header.invocation_result)))

sent_result : Text → ℤ → ℕ → InvocationResult
unfolding result_bytes
sent_result id code len = record {
  buf = put_int 4 2 (pos len) (result_bytes id code len);
  id_len = length id;
}

module _ (id : Text) (code : ℤ) (len : ℕ) where
  holds_id : read_at 6 16 (sent_result id code len).buf ≡ strncpy 16 id
  unfolding sent_result
  holds_id = simp (fields, length-new_buffer)

  result_kind :
      get_int 2 0 (sent_result id code len).buf ≡ pos (kind_value Header.invocation_result)
  unfolding sent_result
  result_kind = simp (fields, fresh_kind)

  result_total : Fits (2 ^ 32) (pos len) → total_length (sent_result id code len).buf ≡ pos len
  unfolding total_length sent_result
  result_total h = simp (fields, length-new_buffer)

  result_length :
      Fits (2 ^ 32) (pos len) → InvocationResult.buffer_length (sent_result id code len) ≡ pos len
  unfolding InvocationResult.buffer_length sent_result
  result_length h = simp (fields, length-new_buffer)

  result_code : Fits (2 ^ 32) code → InvocationResult.return_code (sent_result id code len) ≡ code
  unfolding InvocationResult.return_code sent_result
  result_code h = simp (fields, length-new_buffer)

  of_buffer-sent_result :
      IsName 16 id
      → InvocationResult.of_buffer (sent_result id code len).buf ≡ sent_result id code len
  unfolding InvocationResult.of_buffer sent_result
  of_buffer-sent_result hi = cc (measured 16 6 id (sent_result id code len).buf holds_id hi)

  result_reply-eq : IsName 16 id → result_reply id code len ≡ ok (result_bytes id code len)
  unfolding result_reply result_bytes InvocationResult.fresh InvocationResult.set_invocation_id
      InvocationResult.set_return_code InvocationResult.set_buffer_length InvocationResult.of_buffer
  result_reply-eq hi = ground arith

  parse-sent_result :
      IsName 16 id
      → parse (sent_result id code len).buf
        ≡ ok (Parser.invocation_result (sent_result id code len))
  unfolding parse_as kind_value
  parse-sent_result hi =
      parse-typed Header.invocation_result _ result_kind
      ∙ ap (λ m. ok (Parser.invocation_result m)) (of_buffer-sent_result hi)

  view_id : IsName 16 id → InvocationResult.invocation_id (sent_result id code len) ≡ id
  unfolding InvocationResult.invocation_id sent_result
  view_id hi = view_cached 16 6 id (sent_result id code len).buf holds_id hi

-- The answer to an invocation is built from any id of at most 16 bytes without a 0, any 32-bit return code
-- and an output below 2 GiB; the worker that reads the header finds an invocation result with that
-- id, that code and the output's length, the last also as the total length.
pub parse-result_reply :
    (id : Text) (code : ℤ) (len : ℕ)
    → IsName 16 id
    → Fits (2 ^ 32) code
    → Fits (2 ^ 32) (pos len)
    → (reply : List ℕ) × (m : InvocationResult) × (result_reply id code len ≡ ok reply)
      × (parse (set_total_length (pos len) reply) ≡ ok (Parser.invocation_result m))
      × (InvocationResult.invocation_id m ≡ id)
      × (InvocationResult.return_code m ≡ code)
      × (InvocationResult.buffer_length m ≡ pos len)
      × (total_length m.buf ≡ pos len)
unfolding set_total_length sent_result
parse-result_reply id code len hi hc hl = (
  result_bytes id code len,
  sent_result id code len,
  result_reply-eq id code len hi,
  parse-sent_result id code len hi,
  view_id id code len hi,
  result_code id code len hc,
  result_length id code len hl,
  result_total id code len hl,
)

message_bytes : Text → Text → List ℕ
message_bytes id name =
    put_name 32 42 name (put_name 32 10 id (put_byte 74 0 (new_buffer Header.get_request)))

sent_message : Text → Text → ℕ → GenericRequest
unfolding message_bytes
sent_message id name len = record {
  buf = put_int 4 2 (pos len) (message_bytes id name);
  id_len = length id;
  name_len = length name;
}

module _ (id name : Text) (len : ℕ) where
  message_id : read_at 10 32 (sent_message id name len).buf ≡ strncpy 32 id
  unfolding sent_message
  message_id = simp (fields, length-new_buffer)

  message_name : read_at 42 32 (sent_message id name len).buf ≡ strncpy 32 name
  unfolding sent_message
  message_name = simp (fields, length-new_buffer)

  message_flag : get_byte 74 (sent_message id name len).buf ≡ 0
  unfolding sent_message
  message_flag = simp (fields, length-new_buffer)

  message_kind : get_int 2 0 (sent_message id name len).buf ≡ pos (kind_value Header.get_request)
  unfolding sent_message
  message_kind = simp (fields, fresh_kind)

  message_total : Fits (2 ^ 32) (pos len) → total_length (sent_message id name len).buf ≡ pos len
  unfolding total_length sent_message
  message_total h = simp (fields, length-new_buffer)

  message_state : GenericRequest.state (sent_message id name len) ≡ false
  unfolding GenericRequest.state
  message_state = ground (arith, message_flag)

  of_buffer-sent_message :
      IsName 32 id
      → IsName 32 name
      → GenericRequest.of_buffer (sent_message id name len).buf ≡ sent_message id name len
  unfolding GenericRequest.of_buffer sent_message
  of_buffer-sent_message hi hn = cc (
    measured 32 10 id (sent_message id name len).buf message_id hi,
    measured 32 42 name (sent_message id name len).buf message_name hn,
  )

  message_reply-eq :
      IsName 32 id → IsName 32 name → message_reply id name ≡ ok (message_bytes id name)
  unfolding message_reply message_bytes GenericRequest.fresh GenericRequest.set_process_id
      GenericRequest.set_name GenericRequest.set_state GenericRequest.of_buffer
  message_reply-eq hi hn = ground arith

  parse-sent_message :
      IsName 32 id
      → IsName 32 name
      → parse (sent_message id name len).buf ≡ ok (Parser.get_request (sent_message id name len))
  unfolding parse_as kind_value
  parse-sent_message hi hn =
      parse-typed Header.get_request _ message_kind
      ∙ ap (λ m. ok (Parser.get_request m)) (of_buffer-sent_message hi hn)

  message_views :
      IsName 32 id
      → IsName 32 name
      → (GenericRequest.process_id (sent_message id name len) ≡ id)
        × (GenericRequest.name (sent_message id name len) ≡ name)
  unfolding GenericRequest.process_id GenericRequest.name sent_message
  message_views hi hn = (
    view_cached 32 10 id (sent_message id name len).buf message_id hi,
    view_cached 32 42 name (sent_message id name len).buf message_name hn,
  )

-- The answer to a `get` is built from any sender and key of at most 32 bytes without a 0 and a payload
-- below 2 GiB; the worker that reads the header finds a get request with that sender and key, which
-- is not about state, and the payload's length as the total length.
pub parse-message_reply :
    (id name : Text) (len : ℕ)
    → IsName 32 id
    → IsName 32 name
    → Fits (2 ^ 32) (pos len)
    → (reply : List ℕ) × (m : GenericRequest) × (message_reply id name ≡ ok reply)
      × (parse (set_total_length (pos len) reply) ≡ ok (Parser.get_request m))
      × (GenericRequest.process_id m ≡ id)
      × (GenericRequest.name m ≡ name)
      × (GenericRequest.state m ≡ false)
      × (total_length m.buf ≡ pos len)
unfolding set_total_length sent_message
parse-message_reply id name len hi hn hl =
    let (i, n) = message_views id name len hi hn in
    (
      message_bytes id name,
      sent_message id name len,
      message_reply-eq id name len hi hn,
      parse-sent_message id name len hi hn,
      i,
      n,
      message_state id name len,
      message_total id name len hl,
    )
