-- ===== src/Message/RoundTrip/Outcome.antt =====
-- InvocationResult.
use praas.Base.{ℕ, ◌≡◌, ◌^◌, List, length, arith, ◌∙◌, ap, sym, subst}
use praas.Base.Int.{ℤ, pos, Fits}
use praas.Base.Text.{Text}
use praas.Message.Header.{
  total_length, set_total_length, length-new_buffer, fresh_type, new_buffer, type_value,
}
use praas.Message.Header
use praas.Message.InvocationResult
use praas.Message.InvocationResult.{InvocationResult}
use praas.Message.Parser.{invocation_result, parse, parse_as}
use praas.Message.Builders.{result_message}
use praas.Message.RoundTrip.Typed.{parse-typed}
use praas.Result.{ok, ok-injective}
use praas.Wire.Bytes.{read_at}
use praas.Wire.Words.{put_int, get_int, length-put_int}
use praas.Wire.Names.{IsName, put_name, length-put_name, strncpy, view_cached, measured}
use praas.Wire.Fields.{fields}

result_bytes : Text → ℤ → ℤ → List ℕ
result_bytes id code len =
    put_int 4 2 len (put_int 4 6 code (put_name 16 10 id (new_buffer Header.invocation_result)))

result_object : Text → ℤ → ℤ → InvocationResult
unfolding result_bytes
result_object id code len = record { buf = result_bytes id code len; invocation_id_len = length id }

module _ (id : Text) (code len : ℤ) where
  holds_id : read_at 10 16 (result_bytes id code len) ≡ strncpy 16 id
  unfolding result_bytes
  holds_id = simp (fields, length-new_buffer)

  result_type : get_int 2 0 (result_bytes id code len) ≡ pos (type_value Header.invocation_result)
  unfolding result_bytes
  result_type = simp (fields, fresh_type)

  result_total : Fits (2 ^ 32) len → total_length (result_bytes id code len) ≡ len
  unfolding total_length result_bytes
  result_total h = simp (fields, length-new_buffer)

  result_code : Fits (2 ^ 32) code → get_int 4 6 (result_bytes id code len) ≡ code
  unfolding result_bytes
  result_code h = simp (fields, length-new_buffer)

  of_buffer-result_bytes :
      IsName 16 id
      → InvocationResult.of_buffer (result_bytes id code len) ≡ result_object id code len
  unfolding InvocationResult.of_buffer result_object
  of_buffer-result_bytes hi = cc (measured 16 10 id (result_bytes id code len) holds_id hi)

  result_message-eq : IsName 16 id → result_message id code len ≡ ok (result_object id code len)
  unfolding result_message result_object InvocationResult.fresh InvocationResult.set_invocation_id
      InvocationResult.set_return_code set_total_length
  result_message-eq hi = ground arith

  parse-result_object :
      IsName 16 id
      → parse (result_object id code len).buf ≡ ok (invocation_result (result_object id code len))
  unfolding parse_as result_object type_value
  parse-result_object hi =
      parse-typed Header.invocation_result _ result_type
      ∙ ap (λ m. ok (invocation_result m)) (of_buffer-result_bytes hi)

  view_id : IsName 16 id → InvocationResult.invocation_id (result_object id code len) ≡ id
  unfolding result_object InvocationResult.invocation_id
  view_id hi = view_cached 16 10 id _ holds_id hi

  view_code : Fits (2 ^ 32) code → InvocationResult.return_code (result_object id code len) ≡ code
  unfolding result_object InvocationResult.return_code
  view_code h = result_code h

  view_total : Fits (2 ^ 32) len → total_length (result_object id code len).buf ≡ len
  unfolding result_object
  view_total h = result_total h

-- A result is built from any id of at most 16 bytes and any 32-bit return code and length, negative
-- ones included; its bytes parse back to the object that was sent, and the accessors return the
-- three.
parse-result_message :
    (id : Text) (code len : ℤ)
    → IsName 16 id
    → Fits (2 ^ 32) code
    → Fits (2 ^ 32) len
    → (m : InvocationResult) × (result_message id code len ≡ ok m)
      × (parse m.buf ≡ ok (invocation_result m))
      × (InvocationResult.invocation_id m ≡ id)
      × (InvocationResult.return_code m ≡ code)
      × (total_length m.buf ≡ len)
parse-result_message id code len hi hc hl = (
  result_object id code len,
  result_message-eq id code len hi,
  parse-result_object id code len hi,
  view_id id code len hi,
  view_code id code len hc,
  view_total id code len hl,
)

length-result_object : (id : Text) (code len : ℤ) → length (result_object id code len).buf ≡ 70
unfolding result_object result_bytes
length-result_object id code len =
    length-put_int 4 2 len _
    ∙ length-put_int 4 6 code _
    ∙ length-put_name 16 10 id _
    ∙ length-new_buffer Header.invocation_result

-- What the receiver of a result finds in it.
pub record IsResult (id : Text) (code len : ℤ) (m : InvocationResult) : Type 0 where
  pub parsed : parse m.buf ≡ ok (invocation_result m)
  pub size : length m.buf ≡ 70
  pub named : InvocationResult.invocation_id m ≡ id
  pub coded : InvocationResult.return_code m ≡ code
  pub total : total_length m.buf ≡ len

pub result_message-IsResult :
    (id : Text) (code len : ℤ) (m : InvocationResult)
    → IsName 16 id
    → Fits (2 ^ 32) code
    → Fits (2 ^ 32) len
    → result_message id code len ≡ ok m
    → IsResult id code len m
result_message-IsResult id code len m hi hc hl e =
    subst (IsResult id code len) {x = result_object id code len} {y = m}
      (ok-injective (sym (result_message-eq id code len hi) ∙ e))
      (record {
        parsed = parse-result_object id code len hi;
        size = length-result_object id code len;
        named = view_id id code len hi;
        coded = view_code id code len hc;
        total = view_total id code len hl;
      })
