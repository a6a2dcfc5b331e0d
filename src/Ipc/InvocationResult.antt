-- ===== src/Ipc/InvocationResult.antt =====
-- InvocationResult of ipc/messages.hpp: how an invocation ended, and the length of its output.
use praas.Base.{ℕ, ◌+◌, List, length, ltb, if◌then◌else◌}
use praas.Base.Int.{ℤ}
use praas.Base.Text.{Text}
use praas.Ipc.Header.{header_offset, id_length, new_buffer}
use praas.Ipc.Header
use praas.Result.{Result, ok, err, invalid_argument}
use praas.Wire.Bytes.{read_at}
use praas.Wire.Names.{put_name, strnlen}
use praas.Wire.Words.{get_int, put_int}

pub record InvocationResult : Type 0 where
  pub buf : List ℕ
  pub id_len : ℕ

abbrev pub length_offset : ℕ
length_offset = header_offset + id_length

abbrev pub code_offset : ℕ
code_offset = header_offset + id_length + 4

unfoldable pub of_buffer : List ℕ → InvocationResult
of_buffer buf = record { buf = buf; id_len = strnlen (read_at header_offset id_length buf) }

unfoldable pub fresh : InvocationResult
unfolding of_buffer
fresh = of_buffer (new_buffer Header.invocation_result)

unfoldable pub invocation_id : InvocationResult → Text
invocation_id m = read_at header_offset m.id_len m.buf

unfoldable pub set_invocation_id : Text → InvocationResult → Result InvocationResult
set_invocation_id id m =
    if ltb id_length (length id)
    then err invalid_argument
    else ok (record m { buf = put_name id_length header_offset id m.buf; id_len = length id })

unfoldable pub buffer_length : InvocationResult → ℤ
buffer_length m = get_int 4 length_offset m.buf

unfoldable pub set_buffer_length : ℤ → InvocationResult → InvocationResult
set_buffer_length len m = record m { buf = put_int 4 length_offset len m.buf }

unfoldable pub return_code : InvocationResult → ℤ
return_code m = get_int 4 code_offset m.buf

unfoldable pub set_return_code : ℤ → InvocationResult → InvocationResult
set_return_code code m = record m { buf = put_int 4 code_offset code m.buf }
