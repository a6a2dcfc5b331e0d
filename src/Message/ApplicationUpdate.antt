-- ===== src/Message/ApplicationUpdate.antt =====
-- ApplicationUpdate of messages.hpp: where a process of the application is, and its new status.
use praas.Base.{ℕ, ◌+◌, List, length, ltb, if◌then◌else◌}
use praas.Base.Int.{ℤ}
use praas.Base.Text.{Text}
use praas.Message.Header.{header_offset, name_length, id_length, new_buffer}
use praas.Message.Header
use praas.Result.{Result, ok, err, invalid_argument}
use praas.Wire.Bytes.{read_at}
use praas.Wire.Names.{put_name, strnlen}
use praas.Wire.Words.{get_int, put_int}

pub record ApplicationUpdate : Type 0 where
  pub buf : List ℕ
  pub id_len : ℕ
  pub ip_len : ℕ

abbrev pub ip_offset : ℕ
ip_offset = header_offset + name_length

abbrev pub status_offset : ℕ
status_offset = header_offset + name_length + id_length

unfoldable pub of_buffer : List ℕ → ApplicationUpdate
of_buffer buf = record {
  buf = buf;
  id_len = strnlen (read_at header_offset name_length buf);
  ip_len = strnlen (read_at ip_offset id_length buf);
}

unfoldable pub fresh : ApplicationUpdate
unfolding of_buffer
fresh = of_buffer (new_buffer Header.application_update)

unfoldable pub process_id : ApplicationUpdate → Text
process_id m = read_at header_offset m.id_len m.buf

unfoldable pub set_process_id : Text → ApplicationUpdate → Result ApplicationUpdate
set_process_id id m =
    if ltb name_length (length id)
    then err invalid_argument
    else ok (record m { buf = put_name name_length header_offset id m.buf; id_len = length id })

unfoldable pub ip_address : ApplicationUpdate → Text
ip_address m = read_at ip_offset m.ip_len m.buf

unfoldable pub set_ip_address : Text → ApplicationUpdate → Result ApplicationUpdate
set_ip_address ip m =
    if ltb id_length (length ip)
    then err invalid_argument
    else ok (record m { buf = put_name id_length ip_offset ip m.buf; ip_len = length ip })

unfoldable pub status_change : ApplicationUpdate → ℤ
status_change m = get_int 4 status_offset m.buf

unfoldable pub set_status_change : ℤ → ApplicationUpdate → ApplicationUpdate
set_status_change status m = record m { buf = put_int 4 status_offset status m.buf }

unfoldable pub port : ApplicationUpdate → ℤ
port m = get_int 4 (status_offset + 4) m.buf

unfoldable pub set_port : ℤ → ApplicationUpdate → ApplicationUpdate
set_port p m = record m { buf = put_int 4 (status_offset + 4) p m.buf }
