-- ===== src/Ipc/ApplicationUpdate.antt =====
-- ApplicationUpdate of ipc/messages.hpp: a process of the application changed its status.
use praas.Base.{ℕ, ◌+◌, List, length, ltb, if◌then◌else◌}
use praas.Base.Int.{ℤ}
use praas.Base.Text.{Text}
use praas.Ipc.Header.{header_offset, name_length, new_buffer}
use praas.Ipc.Header
use praas.Result.{Result, ok, err, invalid_argument}
use praas.Wire.Bytes.{read_at}
use praas.Wire.Names.{put_name, strnlen}
use praas.Wire.Words.{get_int, put_int}

pub record ApplicationUpdate : Type 0 where
  pub buf : List ℕ
  pub id_len : ℕ

unfoldable pub of_buffer : List ℕ → ApplicationUpdate
of_buffer buf = record { buf = buf; id_len = strnlen (read_at header_offset name_length buf) }

unfoldable pub fresh : ApplicationUpdate
unfolding of_buffer
fresh = of_buffer (new_buffer Header.application_update)

unfoldable pub process_id : ApplicationUpdate → Text
process_id m = read_at header_offset m.id_len m.buf

unfoldable pub set_process_id : Text → ApplicationUpdate → Result ApplicationUpdate
set_process_id id m =
    if ltb name_length (length id)
    then err invalid_argument
    else ok (record m { buf = put_name name_length header_offset id m.buf; id_len = length id })

unfoldable pub status_change : ApplicationUpdate → ℤ
status_change m = get_int 4 (header_offset + name_length) m.buf

unfoldable pub set_status_change : ℤ → ApplicationUpdate → ApplicationUpdate
set_status_change code m = record m { buf = put_int 4 (header_offset + name_length) code m.buf }
