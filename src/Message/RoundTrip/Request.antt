-- ===== src/Message/RoundTrip/Request.antt =====
-- InvocationRequest.
use praas.Base.{ℕ, ◌≡◌, ◌^◌, List, length, arith, ◌∙◌, ap}
use praas.Base.Int.{ℤ, pos, Fits}
use praas.Base.Text.{Text}
use praas.Message.Header.{
  total_length, set_total_length, length-new_buffer, fresh_type, new_buffer, type_value,
}
use praas.Message.Header
use praas.Message.InvocationRequest
use praas.Message.InvocationRequest.{InvocationRequest}
use praas.Message.Parser.{invocation_request, parse, parse_as}
use praas.Message.Builders.{request_message}
use praas.Message.RoundTrip.Typed.{parse-typed}
use praas.Result.{ok}
use praas.Wire.Bytes.{read_at}
use praas.Wire.Words.{put_int, get_int}
use praas.Wire.Names.{IsName, put_name, strncpy, view_cached, measured}
use praas.Wire.Fields.{fields}

request_bytes : Text → Text → ℤ → List ℕ
request_bytes id fname len = put_int 4 2 len (
    put_int 4 6 len
      (put_name 32 10 fname (put_name 16 42 id (new_buffer Header.invocation_request))))

pub request_object : Text → Text → ℤ → InvocationRequest
unfolding request_bytes
request_object id fname len = record {
  buf = request_bytes id fname len;
  fname_len = length fname;
  invocation_id_len = length id;
}

module _ (id fname : Text) (len : ℤ) where
  holds_fname : read_at 10 32 (request_bytes id fname len) ≡ strncpy 32 fname
  unfolding request_bytes
  holds_fname = simp (fields, length-new_buffer)

  holds_id : read_at 42 16 (request_bytes id fname len) ≡ strncpy 16 id
  unfolding request_bytes
  holds_id = simp (fields, length-new_buffer)

  request_type :
      get_int 2 0 (request_bytes id fname len) ≡ pos (type_value Header.invocation_request)
  unfolding request_bytes
  request_type = simp (fields, fresh_type)

  request_total : Fits (2 ^ 32) len → total_length (request_bytes id fname len) ≡ len
  unfolding total_length request_bytes
  request_total h = simp (fields, length-new_buffer)

  request_payload : Fits (2 ^ 32) len → get_int 4 6 (request_bytes id fname len) ≡ len
  unfolding request_bytes
  request_payload h = simp (fields, length-new_buffer)

  of_buffer-request_bytes :
      IsName 16 id
      → IsName 32 fname
      → InvocationRequest.of_buffer (request_bytes id fname len) ≡ request_object id fname len
  unfolding InvocationRequest.of_buffer request_object
  of_buffer-request_bytes hi hf = cc (
    measured 32 10 fname (request_bytes id fname len) holds_fname hf,
    measured 16 42 id (request_bytes id fname len) holds_id hi,
  )

module _ (id fname : Text) (n : ℕ) (hi : IsName 16 id) (hf : IsName 32 fname) where
  pub request_message-eq : request_message id fname (pos n) ≡ ok (request_object id fname (pos n))
  unfolding request_message request_object InvocationRequest.fresh
      InvocationRequest.set_invocation_id InvocationRequest.set_function_name
      InvocationRequest.set_payload_size set_total_length
  request_message-eq = ground arith

  pub parse-request_object :
      parse (request_object id fname (pos n)).buf
      ≡ ok (invocation_request (request_object id fname (pos n)))
  unfolding parse_as request_object type_value
  parse-request_object =
      parse-typed Header.invocation_request _ (request_type id fname (pos n))
      ∙ ap (λ m. ok (invocation_request m)) (of_buffer-request_bytes id fname (pos n) hi hf)

  pub request_fields :
      Fits (2 ^ 32) (pos n)
      → let m = request_object id fname (pos n) in
        (InvocationRequest.invocation_id m ≡ id)
        × (InvocationRequest.function_name m ≡ fname)
        × (InvocationRequest.payload_size m ≡ pos n)
        × (total_length m.buf ≡ pos n)
  unfolding request_object InvocationRequest.invocation_id InvocationRequest.function_name
      InvocationRequest.payload_size
  request_fields h = (
    view_cached 16 42 id _ (holds_id id fname (pos n)) hi,
    view_cached 32 10 fname _ (holds_fname id fname (pos n)) hf,
    request_payload id fname (pos n) h,
    request_total id fname (pos n) h,
  )

-- A request is built from any id of at most 16 bytes, name of at most 32 bytes and size below 2^31,
-- its bytes parse back to the very object that was sent, and the object's accessors return the id,
-- the name and the size, the last also as the total length.
pub parse-request_message :
    (id fname : Text) (n : ℕ)
    → IsName 16 id
    → IsName 32 fname
    → Fits (2 ^ 32) (pos n)
    → (m : InvocationRequest) × (request_message id fname (pos n) ≡ ok m)
      × (parse m.buf ≡ ok (invocation_request m))
      × (InvocationRequest.invocation_id m ≡ id)
      × (InvocationRequest.function_name m ≡ fname)
      × (InvocationRequest.payload_size m ≡ pos n)
      × (total_length m.buf ≡ pos n)
parse-request_message id fname n hi hf h =
    let (a, b, c, d) = request_fields id fname n hi hf h in
    (
      request_object id fname (pos n),
      request_message-eq id fname n hi hf,
      parse-request_object id fname n hi hf,
      a,
      b,
      c,
      d,
    )
