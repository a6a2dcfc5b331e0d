-- ===== src/Message/ProcessConnection.antt =====
-- ProcessConnection of messages.hpp: a process introduces itself by its name.
use praas.Base.{ℕ, List, length, ltb, if◌then◌else◌}
use praas.Base.Text.{Text}
use praas.Message.Header.{header_offset, name_length, new_buffer}
use praas.Message.Header
use praas.Result.{Result, ok, err, invalid_argument}
use praas.Wire.Bytes.{read_at}
use praas.Wire.Names.{put_name, strnlen}

pub record ProcessConnection : Type 0 where
  pub buf : List ℕ
  pub process_name_len : ℕ

unfoldable pub of_buffer : List ℕ → ProcessConnection
of_buffer buf = record {
  buf = buf;
  process_name_len = strnlen (read_at header_offset name_length buf);
}

unfoldable pub fresh : ProcessConnection
unfolding of_buffer
fresh = of_buffer (new_buffer Header.process_connection)

unfoldable pub process_name : ProcessConnection → Text
process_name m = read_at header_offset m.process_name_len m.buf

unfoldable pub set_process_name : Text → ProcessConnection → Result ProcessConnection
set_process_name name m =
    if ltb name_length (length name)
    then err invalid_argument
    else ok (record m {
      buf = put_name name_length header_offset name m.buf;
      process_name_len = length name;
    })
