-- ===== src/ControlPlane/Process/Waiting/Announced.antt =====
-- What a process reads in the message that announces an invocation to it.
use praas.Base.{ℕ, ◌<◌, ◌≡◌, ◌^◌, List, [], length, take, arith, ap, sym, subst, ◌∙◌}
use praas.Base.Int.{pos, Fits}
use praas.Base.Text.{Text}
use praas.ControlPlane.Process.{Invocation}
use praas.ControlPlane.Process.Requests.{invocation_message}
use praas.ControlPlane.Process.Waiting.{header, as_int32-pos}
use praas.Message.Header.{
  total_length, set_total_length, length-new_buffer, fresh_type, new_buffer, type_value,
}
use praas.Message.Header
use praas.Message.InvocationRequest
use praas.Message.InvocationRequest.{InvocationRequest}
use praas.Message.Parser.{invocation_request, parse, parse_as}
use praas.Message.RoundTrip.Typed.{parse-typed}
use praas.Result.{ok}
use praas.Wire.Bytes.{read_at}
use praas.Wire.Fields.{fields}
use praas.Wire.Names.{IsName, put_name, strncpy, view_cached, measured}
use praas.Wire.Words.{put_int, get_int}

-- The bytes are read as a request for the invocation: its function, the first 16 bytes of its id, and
-- the size of the body, which follows.
pub data Announces (i : Invocation) (bytes : List ℕ) : Type 0 where
  announced :
      (m : InvocationRequest)
      → parse bytes ≡ ok (invocation_request m)
      → InvocationRequest.function_name m ≡ i.function_name
      → InvocationRequest.invocation_id m ≡ take 16 i.invocation_id
      → InvocationRequest.payload_size m ≡ pos (length i.body)
      → total_length m.buf ≡ pos (length i.body)
      → Announces i bytes

-- The texts have no 0 inside, and the texts and the body have room.
abbrev pub IsClean : Invocation → Type 0
IsClean i =
    IsName 32 i.function_name × IsName 16 (take 16 i.invocation_id) × (length i.body < 2 ^ 31)

sent_bytes : Text → Text → ℕ → List ℕ
sent_bytes id name n = put_int 4 2 (pos n) (
    put_int 4 6 (pos n)
      (put_name 16 42 id (put_name 32 10 name (new_buffer Header.invocation_request))))

sent_object : Text → Text → ℕ → InvocationRequest
unfolding sent_bytes
sent_object id name n = record {
  buf = sent_bytes id name n;
  fname_len = length name;
  invocation_id_len = length id;
}

module _ (id name : Text) (n : ℕ) where
  holds_name : read_at 10 32 (sent_bytes id name n) ≡ strncpy 32 name
  unfolding sent_bytes
  holds_name = simp (fields, length-new_buffer)

  holds_id : read_at 42 16 (sent_bytes id name n) ≡ strncpy 16 id
  unfolding sent_bytes
  holds_id = simp (fields, length-new_buffer)

  holds_type : get_int 2 0 (sent_bytes id name n) ≡ pos (type_value Header.invocation_request)
  unfolding sent_bytes
  holds_type = simp (fields, fresh_type)

  holds_total : Fits (2 ^ 32) (pos n) → total_length (sent_bytes id name n) ≡ pos n
  unfolding total_length sent_bytes
  holds_total h = simp (fields, length-new_buffer)

  holds_size : Fits (2 ^ 32) (pos n) → get_int 4 6 (sent_bytes id name n) ≡ pos n
  unfolding sent_bytes
  holds_size h = simp (fields, length-new_buffer)

  of_buffer-sent_bytes :
      IsName 16 id
      → IsName 32 name
      → InvocationRequest.of_buffer (sent_bytes id name n) ≡ sent_object id name n
  unfolding InvocationRequest.of_buffer sent_object
  of_buffer-sent_bytes hi hn = cc (
    measured 32 10 name (sent_bytes id name n) holds_name hn,
    measured 16 42 id (sent_bytes id name n) holds_id hi,
  )

  parse-sent_object :
      IsName 16 id
      → IsName 32 name
      → parse (sent_object id name n).buf ≡ ok (invocation_request (sent_object id name n))
  unfolding parse_as sent_object type_value
  parse-sent_object hi hn =
      parse-typed Header.invocation_request _ holds_type
      ∙ ap (λ m. ok (invocation_request m)) (of_buffer-sent_bytes hi hn)

  sent_object-fields :
      IsName 16 id
      → IsName 32 name
      → Fits (2 ^ 32) (pos n)
      → let m = sent_object id name n in
        (InvocationRequest.function_name m ≡ name)
        × (InvocationRequest.invocation_id m ≡ id)
        × (InvocationRequest.payload_size m ≡ pos n)
        × (total_length m.buf ≡ pos n)
  unfolding sent_object InvocationRequest.invocation_id InvocationRequest.function_name
      InvocationRequest.payload_size
  sent_object-fields hi hn h = (
    view_cached 32 10 name _ holds_name hn,
    view_cached 16 42 id _ holds_id hi,
    holds_size h,
    holds_total h,
  )

invocation_message-eq :
    (i : Invocation)
    → IsClean i
    → invocation_message i
      ≡ ok (sent_object (take 16 i.invocation_id) i.function_name (length i.body))
unfolding invocation_message sent_object sent_bytes InvocationRequest.fresh
    InvocationRequest.set_invocation_id InvocationRequest.set_function_name
    InvocationRequest.set_payload_size set_total_length InvocationRequest.of_buffer
invocation_message-eq i (hn, hi, small) = ground (arith, as_int32-pos (length i.body) small)

-- The message of an invocation that can be sent, with texts without a 0, announces it.
pub header-Announces : (i : Invocation) → IsClean i → Announces i (header i)
header-Announces i clean =
    let (hn, hi, small) = clean in
    let id = take 16 i.invocation_id in
    let n = length i.body in
    let (f, a, s, t) = sent_object-fields id i.function_name n hi hn (omega (arith, small)) in
    subst (Announces i) {x = (sent_object id i.function_name n).buf} {y = header i}
      (sym (ap (λ r. elim r [ ok m ↦ m.buf | _ ↦ [] ]) (invocation_message-eq i clean)))
      (announced (sent_object id i.function_name n) (parse-sent_object id i.function_name n hi hn) f
        a s t)
