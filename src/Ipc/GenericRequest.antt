-- ===== src/Ipc/GenericRequest.antt =====
-- GenericRequest of ipc/messages.hpp, which GetRequest and PutRequest share.
use praas.Base.{ℕ, ◌+◌, Bool, false, not, List, length, ltb, ◌==◌, if◌then◌else◌}
use praas.Base.Int.{ℤ}
use praas.Base.Text.{Text}
use praas.Ipc.Header.{Kind, header_offset, name_length, new_buffer}
use praas.Result.{Result, ok, err, invalid_argument}
use praas.Wire.Bytes.{read_at}
use praas.Wire.Names.{put_name, strnlen}
use praas.Wire.Words.{get_int, put_int, get_byte, put_byte}

pub record GenericRequest : Type 0 where
  pub buf : List ℕ
  pub id_len : ℕ
  pub name_len : ℕ

abbrev pub id_offset : ℕ
id_offset = header_offset + 4

abbrev pub name_offset : ℕ
name_offset = header_offset + 4 + name_length

abbrev pub state_offset : ℕ
state_offset = header_offset + 4 + (name_length + name_length)

-- GenericRequestParsed over the bytes behind the header.
unfoldable pub of_buffer : List ℕ → GenericRequest
of_buffer buf = record {
  buf = buf;
  id_len = strnlen (read_at id_offset name_length buf);
  name_len = strnlen (read_at name_offset name_length buf);
}

-- `*reinterpret_cast<const bool*>`.
unfoldable pub state : GenericRequest → Bool
state m = not (get_byte state_offset m.buf == 0)

unfoldable pub set_state : Bool → GenericRequest → GenericRequest
set_state b m = record m { buf = put_byte state_offset (if b then 1 else 0) m.buf }

unfoldable pub fresh : Kind → GenericRequest
unfolding of_buffer set_state
fresh k = set_state false (of_buffer (new_buffer k))

unfoldable pub data_len : GenericRequest → ℤ
data_len m = get_int 4 header_offset m.buf

unfoldable pub set_data_len : ℤ → GenericRequest → GenericRequest
set_data_len len m = record m { buf = put_int 4 header_offset len m.buf }

unfoldable pub process_id : GenericRequest → Text
process_id m = read_at id_offset m.id_len m.buf

unfoldable pub set_process_id : Text → GenericRequest → Result GenericRequest
set_process_id id m =
    if ltb name_length (length id)
    then err invalid_argument
    else ok (record m { buf = put_name name_length id_offset id m.buf; id_len = length id })

unfoldable pub name : GenericRequest → Text
name m = read_at name_offset m.name_len m.buf

unfoldable pub set_name : Text → GenericRequest → Result GenericRequest
set_name n m =
    if ltb name_length (length n)
    then err invalid_argument
    else ok (record m { buf = put_name name_length name_offset n m.buf; name_len = length n })
