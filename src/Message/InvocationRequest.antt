-- ===== src/Message/InvocationRequest.antt =====
-- InvocationRequest of messages.hpp: a function, the id of its invocation and the payload's size.
use praas.Base.{ℕ, ◌+◌, List, length, ltb, if◌then◌else◌}
use praas.Base.Int.{ℤ, is_negative}
use praas.Base.Text.{Text}
use praas.Message.Header.{header_offset, name_length, id_length, new_buffer}
use praas.Message.Header
use praas.Result.{Result, ok, err, invalid_argument}
use praas.Wire.Bytes.{read_at}
use praas.Wire.Names.{put_name, strnlen}
use praas.Wire.Words.{get_int, put_int}

pub record InvocationRequest : Type 0 where
  pub buf : List ℕ
  pub fname_len : ℕ
  pub invocation_id_len : ℕ

-- The fields behind `data()`: the payload's size, the function's name, the id.
abbrev pub fname_offset : ℕ
fname_offset = header_offset + 4

abbrev pub id_offset : ℕ
id_offset = header_offset + name_length + 4

unfoldable pub of_buffer : List ℕ → InvocationRequest
of_buffer buf = record {
  buf = buf;
  fname_len = strnlen (read_at fname_offset name_length buf);
  invocation_id_len = strnlen (read_at id_offset id_length buf);
}

unfoldable pub fresh : InvocationRequest
unfolding of_buffer
fresh = of_buffer (new_buffer Header.invocation_request)

unfoldable pub invocation_id : InvocationRequest → Text
invocation_id m = read_at id_offset m.invocation_id_len m.buf

unfoldable pub set_invocation_id : Text → InvocationRequest → Result InvocationRequest
set_invocation_id name m =
    if ltb id_length (length name)
    then err invalid_argument
    else ok (record m {
      buf = put_name id_length id_offset name m.buf;
      invocation_id_len = length name;
    })

unfoldable pub function_name : InvocationRequest → Text
function_name m = read_at fname_offset m.fname_len m.buf

unfoldable pub set_function_name : Text → InvocationRequest → Result InvocationRequest
set_function_name name m =
    if ltb name_length (length name)
    then err invalid_argument
    else ok
        (record m { buf = put_name name_length fname_offset name m.buf; fname_len = length name })

unfoldable pub payload_size : InvocationRequest → ℤ
payload_size m = get_int 4 header_offset m.buf

unfoldable pub set_payload_size : ℤ → InvocationRequest → Result InvocationRequest
set_payload_size size m =
    if is_negative size
    then err invalid_argument
    else ok (record m { buf = put_int 4 header_offset size m.buf })
