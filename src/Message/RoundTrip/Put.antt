-- ===== src/Message/RoundTrip/Put.antt =====
-- PutMessage.
use praas.Base.{ℕ, ◌≡◌, ◌^◌, List, length, arith, ◌∙◌, ap}
use praas.Base.Int.{ℤ, pos, Fits}
use praas.Base.Text.{Text}
use praas.Message.Header.{
  total_length, set_total_length, length-new_buffer, fresh_type, new_buffer, type_value,
}
use praas.Message.Header
use praas.Message.PutMessage
use praas.Message.PutMessage.{PutMessage}
use praas.Message.Parser.{put_message, parse, parse_as}
use praas.Message.Builders.{put_message_from}
use praas.Message.RoundTrip.Typed.{parse-typed}
use praas.Result.{ok}
use praas.Wire.Bytes.{read_at}
use praas.Wire.Words.{put_int, get_int}
use praas.Wire.Names.{IsName, put_name, strncpy, view_cached, measured}
use praas.Wire.Fields.{fields}

put_bytes : Text → Text → ℤ → List ℕ
put_bytes name id len =
    put_int 4 2 len (put_name 32 38 id (put_name 32 6 name (new_buffer Header.put_message)))

put_object : Text → Text → ℤ → PutMessage
unfolding put_bytes
put_object name id len = record {
  buf = put_bytes name id len;
  name_len = length name;
  id_len = length id;
}

module _ (name id : Text) (len : ℤ) where
  holds_name : read_at 6 32 (put_bytes name id len) ≡ strncpy 32 name
  unfolding put_bytes
  holds_name = simp (fields, length-new_buffer)

  holds_id : read_at 38 32 (put_bytes name id len) ≡ strncpy 32 id
  unfolding put_bytes
  holds_id = simp (fields, length-new_buffer)

  put_type : get_int 2 0 (put_bytes name id len) ≡ pos (type_value Header.put_message)
  unfolding put_bytes
  put_type = simp (fields, fresh_type)

  view_total : Fits (2 ^ 32) len → total_length (put_object name id len).buf ≡ len
  unfolding total_length put_object put_bytes
  view_total h = simp (fields, length-new_buffer)

  module _ (hn : IsName 32 name) (hi : IsName 32 id) where
    of_buffer-put_bytes : PutMessage.of_buffer (put_bytes name id len) ≡ put_object name id len
    unfolding PutMessage.of_buffer put_object
    of_buffer-put_bytes = cc (
      measured 32 6 name (put_bytes name id len) holds_name hn,
      measured 32 38 id (put_bytes name id len) holds_id hi,
    )

    put_message_from-eq : put_message_from name id len ≡ ok (put_object name id len)
    unfolding put_message_from put_object PutMessage.fresh PutMessage.set_name
        PutMessage.set_process_id set_total_length
    put_message_from-eq = ground arith

    parse-put_object :
        parse (put_object name id len).buf ≡ ok (put_message (put_object name id len))
    unfolding parse_as put_object type_value
    parse-put_object =
        parse-typed Header.put_message _ put_type ∙ ap (λ m. ok (put_message m)) of_buffer-put_bytes

    view_names :
        (PutMessage.name (put_object name id len) ≡ name)
        × (PutMessage.process_id (put_object name id len) ≡ id)
    unfolding put_object PutMessage.name PutMessage.process_id
    view_names = (view_cached 32 6 name _ holds_name hn, view_cached 32 38 id _ holds_id hi)

-- A mailbox message is built from any key and sender's name of at most 32 bytes each, which fill the
-- 70 bytes to the last; its bytes parse back to the object that was sent, and the accessors return
-- the two names and the length.
pub parse-put_message_from :
    (name id : Text) (len : ℤ)
    → IsName 32 name
    → IsName 32 id
    → Fits (2 ^ 32) len
    → (m : PutMessage) × (put_message_from name id len ≡ ok m)
      × (parse m.buf ≡ ok (put_message m))
      × (PutMessage.name m ≡ name)
      × (PutMessage.process_id m ≡ id)
      × (total_length m.buf ≡ len)
parse-put_message_from name id len hn hi hl =
    let (n, i) = view_names name id len hn hi in
    (
      put_object name id len,
      put_message_from-eq name id len hn hi,
      parse-put_object name id len hn hi,
      n,
      i,
      view_total name id len hl,
    )
