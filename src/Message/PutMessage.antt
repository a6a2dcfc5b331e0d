-- ===== src/Message/PutMessage.antt =====
-- PutMessage of messages.hpp: a message for the mailbox of a process.
use praas.Base.{ℕ, ◌+◌, List, length, ltb, if◌then◌else◌}
use praas.Base.Text.{Text}
use praas.Message.Header.{header_offset, name_length, new_buffer}
use praas.Message.Header
use praas.Result.{Result, ok, err, invalid_argument}
use praas.Wire.Bytes.{read_at}
use praas.Wire.Names.{put_name, strnlen}

pub record PutMessage : Type 0 where
  pub buf : List ℕ
  pub name_len : ℕ
  pub id_len : ℕ

abbrev pub id_offset : ℕ
id_offset = header_offset + name_length

unfoldable pub of_buffer : List ℕ → PutMessage
of_buffer buf = record {
  buf = buf;
  name_len = strnlen (read_at header_offset name_length buf);
  id_len = strnlen (read_at id_offset name_length buf);
}

unfoldable pub fresh : PutMessage
unfolding of_buffer
fresh = of_buffer (new_buffer Header.put_message)

unfoldable pub name : PutMessage → Text
name m = read_at header_offset m.name_len m.buf

unfoldable pub set_name : Text → PutMessage → Result PutMessage
set_name n m =
    if ltb name_length (length n)
    then err invalid_argument
    else ok (record m { buf = put_name name_length header_offset n m.buf; name_len = length n })

unfoldable pub process_id : PutMessage → Text
process_id m = read_at id_offset m.id_len m.buf

unfoldable pub set_process_id : Text → PutMessage → Result PutMessage
set_process_id id m =
    if ltb name_length (length id)
    then err invalid_argument
    else ok (record m { buf = put_name name_length id_offset id m.buf; id_len = length id })
