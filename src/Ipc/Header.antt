-- ===== src/Ipc/Header.antt =====
-- The struct Message of ipc/messages.hpp: sizes, types and the total length.
use praas.Base.{ℕ, ◌≡◌, ◌<◌, refl, List, replicate, length, leb, if◌then◌else◌, arith}
use praas.Base.Int.{ℤ, pos, negsuc}
use praas.Result.{Result, ok, err, invalid_message}
use praas.Wire.Words.{get_int, put_int, length-put_int, get_int-put_int}

abbrev pub buf_size : ℕ
buf_size = 128

abbrev pub header_offset : ℕ
header_offset = 6

abbrev pub name_length : ℕ
name_length = 32

abbrev pub id_length : ℕ
id_length = 16

pub data Kind : Type 0 where
  generic_header : Kind
  get_request : Kind
  put_request : Kind
  invocation_request : Kind
  invocation_result : Kind
  application_update : Kind
  state_keys_request : Kind
  state_keys_result : Kind

-- `static_cast<int16_t>(type)`.
unfoldable pub kind_value : Kind → ℕ
kind_value generic_header = 0
kind_value get_request = 1
kind_value put_request = 2
kind_value invocation_request = 3
kind_value invocation_result = 4
kind_value application_update = 5
kind_value state_keys_request = 6
kind_value state_keys_result = 7

abbrev pub end_flag : ℕ
end_flag = 8

-- The range test of `Message::parse_message` and `Message::type`.
unfoldable pub check_kind : ℤ → Result ℕ
check_kind (pos n) = if leb end_flag n then err invalid_message else ok n
check_kind (negsuc n) = err invalid_message

-- The constructor of `Message`.
unfoldable pub new_buffer : Kind → List ℕ
unfolding kind_value
new_buffer k = put_int 2 0 (pos (kind_value k)) (replicate buf_size 0)

unfoldable pub total_length : List ℕ → ℤ
total_length buf = get_int 4 2 buf

unfoldable pub set_total_length : ℤ → List ℕ → List ℕ
set_total_length len buf = put_int 4 2 len buf

pub length-new_buffer : (k : Kind) → length (new_buffer k) ≡ buf_size
unfolding new_buffer
length-new_buffer k = length-put_int 2 0 _ _

pub kind_value-lt : (k : Kind) → kind_value k < end_flag
unfolding kind_value
kind_value-lt generic_header = omega arith
kind_value-lt _ = omega arith

-- The kind that a fresh message carries, read as a word.
pub fresh_kind : (k : Kind) → get_int 2 0 (new_buffer k) ≡ pos (kind_value k)
unfolding new_buffer
fresh_kind k = get_int-put_int 2 0 (pos (kind_value k)) _ refl (omega (arith, kind_value-lt k))
