-- ===== src/Message/InvocationResult.antt =====
-- InvocationResult of messages.hpp: the id of an invocation and its return code.
use praas.Base.{ℕ, ◌+◌, List, length, ltb, if◌then◌else◌}
use praas.Base.Int.{ℤ}
use praas.Base.Text.{Text}
use praas.Message.Header.{header_offset, id_length, new_buffer}
use praas.Message.Header
use praas.Result.{Result, ok, err, invalid_argument}
use praas.Wire.Bytes.{read_at}
use praas.Wire.Names.{put_name, strnlen}
use praas.Wire.Words.{get_int, put_int}

pub record InvocationResult : Type 0 where
  pub buf : List ℕ
  pub invocation_id_len : ℕ

abbrev pub id_offset : ℕ
id_offset = header_offset + 4

unfoldable pub of_buffer : List ℕ → InvocationResult
of_buffer buf = record { buf = buf; invocation_id_len = strnlen (read_at id_offset id_length buf) }

unfoldable pub fresh : InvocationResult
unfolding of_buffer
fresh = of_buffer (new_buffer Header.invocation_result)

unfoldable pub invocation_id : InvocationResult → Text
invocation_id m = read_at id_offset m.invocation_id_len m.buf

unfoldable pub set_invocation_id : Text → InvocationResult → Result InvocationResult
set_invocation_id name m =
    if ltb id_length (length name)
    then err invalid_argument
    else ok (record m {
      buf = put_name id_length id_offset name m.buf;
      invocation_id_len = length name;
    })

unfoldable pub return_code : InvocationResult → ℤ
return_code m = get_int 4 header_offset m.buf

unfoldable pub set_return_code : ℤ → InvocationResult → InvocationResult
set_return_code code m = record m { buf = put_int 4 header_offset code m.buf }
