-- ===== src/Message/SwapRequest.antt =====
-- SwapRequest of messages.hpp: the control plane asks a process to swap out to a path.
use praas.Base.{ℕ, List, length, ltb, if◌then◌else◌}
use praas.Base.Text.{Text}
use praas.Message.Header.{header_offset, name_length, id_length, new_buffer}
use praas.Message.Header
use praas.Result.{Result, ok, err, invalid_argument}
use praas.Wire.Bytes.{read_at}
use praas.Wire.Names.{put_name, strnlen}

pub record SwapRequest : Type 0 where
  pub buf : List ℕ
  pub path_len : ℕ

-- The constructor measures NAME_LENGTH bytes, while `set_path` writes ID_LENGTH.
unfoldable pub of_buffer : List ℕ → SwapRequest
of_buffer buf = record { buf = buf; path_len = strnlen (read_at header_offset name_length buf) }

unfoldable pub fresh : SwapRequest
unfolding of_buffer
fresh = of_buffer (new_buffer Header.swap_request)

unfoldable pub path : SwapRequest → Text
path m = read_at header_offset m.path_len m.buf

unfoldable pub set_path : Text → SwapRequest → Result SwapRequest
set_path p m =
    if ltb id_length (length p)
    then err invalid_argument
    else ok (record m { buf = put_name id_length header_offset p m.buf; path_len = length p })
