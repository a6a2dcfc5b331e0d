-- ===== src/Ipc/InvocationRequest.antt =====
-- InvocationRequest of ipc/messages.hpp: what a worker is to run, and the lengths of its inputs.
use praas.Base.{ℕ, ◌+◌, ◌*◌, List, [], ◌∷◌, length, ltb, if◌then◌else◌}
use praas.Base.Int.{ℤ, pos}
use praas.Base.Text.{Text}
use praas.Ipc.Header.{header_offset, name_length, id_length, buf_size, new_buffer}
use praas.Ipc.Header
use praas.Result.{Result, ok, err, undefined, invalid_argument}
use praas.Wire.Bytes.{read_at}
use praas.Wire.Names.{put_name, strnlen}
use praas.Wire.Words.{get_int, put_int}

pub record InvocationRequest : Type 0 where
  pub buf : List ℕ
  pub process_id_len : ℕ
  pub id_len : ℕ
  pub name_len : ℕ

abbrev pub max_buffers : ℕ
max_buffers = 16

abbrev pub name_offset : ℕ
name_offset = header_offset + id_length

abbrev pub process_offset : ℕ
process_offset = header_offset + id_length + name_length

abbrev pub count_offset : ℕ
count_offset = header_offset + name_length + (id_length + id_length)

abbrev pub lengths_offset : ℕ
lengths_offset = count_offset + 4

unfoldable pub of_buffer : List ℕ → InvocationRequest
of_buffer buf = record {
  buf = buf;
  process_id_len = strnlen (read_at process_offset id_length buf);
  id_len = strnlen (read_at header_offset id_length buf);
  name_len = strnlen (read_at name_offset name_length buf);
}

unfoldable pub fresh : InvocationRequest
unfolding of_buffer
fresh = of_buffer (new_buffer Header.invocation_request)

unfoldable pub process_id : InvocationRequest → Text
process_id m = read_at process_offset m.process_id_len m.buf

unfoldable pub set_process_id : Text → InvocationRequest → Result InvocationRequest
set_process_id id m =
    if ltb id_length (length id)
    then err invalid_argument
    else ok
        (record m { buf = put_name id_length process_offset id m.buf; process_id_len = length id })

unfoldable pub invocation_id : InvocationRequest → Text
invocation_id m = read_at header_offset m.id_len m.buf

unfoldable pub set_invocation_id : Text → InvocationRequest → Result InvocationRequest
set_invocation_id id m =
    if ltb id_length (length id)
    then err invalid_argument
    else ok (record m { buf = put_name id_length header_offset id m.buf; id_len = length id })

unfoldable pub function_name : InvocationRequest → Text
function_name m = read_at name_offset m.name_len m.buf

unfoldable pub set_function_name : Text → InvocationRequest → Result InvocationRequest
set_function_name n m =
    if ltb name_length (length n)
    then err invalid_argument
    else ok (record m { buf = put_name name_length name_offset n m.buf; name_len = length n })

unfoldable pub buffers : InvocationRequest → ℤ
buffers m = get_int 4 count_offset m.buf

-- The i-th entry of `buffers_lengths()`.
unfoldable pub buffers_length : ℕ → InvocationRequest → ℤ
buffers_length i m = get_int 4 (lengths_offset + 4 * i) m.buf

-- `while (begin != end) *ptr++ = *begin++`.
unfoldable pub put_lengths : ℕ → List ℕ → List ℕ → List ℕ
put_lengths off [] buf = buf
put_lengths off (len ∷ lens) buf = put_lengths (off + 4) lens (put_int 4 off (pos len) buf)

-- The `buffers` setters over a range. The array `data` ends at BUF_SIZE: what the loop writes behind
-- it lands in the object's other members.
unfoldable pub set_buffers : List ℕ → InvocationRequest → Result InvocationRequest
unfolding put_lengths
set_buffers lens m =
    if ltb max_buffers (length lens)
    then err invalid_argument
    else if ltb buf_size (lengths_offset + 4 * length lens)
    then undefined
    else ok (record m {
      buf = put_lengths lengths_offset lens (put_int 4 count_offset (pos (length lens)) m.buf);
    })

-- `buffers(int32_t)`: one buffer.
unfoldable pub set_buffer : ℤ → InvocationRequest → InvocationRequest
set_buffer len m = record m {
  buf = put_int 4 lengths_offset len (put_int 4 count_offset (pos 1) m.buf);
}
