-- ===== src/Message/Header.antt =====
-- MessageConfig, MessageType and the base class Message of messages.hpp.
use praas.Base.{ℕ, ◌≡◌, ◌<◌, refl, List, replicate, length, leb}
use praas.Base.{◌==◌, if◌then◌else◌, arith}
use praas.Base.Int.{ℤ, pos, negsuc}
use praas.Result.{Result, ok, err, invalid_message, ◌>>=◌}
use praas.Wire.Words.{get_int, put_int, length-put_int, get_int-put_int}

abbrev pub buf_size : ℕ
buf_size = 70

abbrev pub header_offset : ℕ
header_offset = 6

abbrev pub name_length : ℕ
name_length = 32

abbrev pub id_length : ℕ
id_length = 16

pub data MessageType : Type 0 where
  generic_header : MessageType
  process_connection : MessageType
  swap_request : MessageType
  swap_confirmation : MessageType
  invocation_request : MessageType
  invocation_result : MessageType
  dataplane_metrics : MessageType
  process_closure : MessageType
  application_update : MessageType
  put_message : MessageType

-- `static_cast<int16_t>(type)`.
unfoldable pub type_value : MessageType → ℕ
type_value generic_header = 0
type_value process_connection = 1
type_value swap_request = 2
type_value swap_confirmation = 3
type_value invocation_request = 4
type_value invocation_result = 5
type_value dataplane_metrics = 6
type_value process_closure = 7
type_value application_update = 8
type_value put_message = 9

abbrev pub end_flag : ℕ
end_flag = 10

-- The range test of `Message::type`.
unfoldable pub check_type : ℤ → Result ℕ
check_type (pos n) = if leb end_flag n then err invalid_message else ok n
check_type (negsuc n) = err invalid_message

-- `static_cast<MessageType>` of a value in range.
unfoldable pub type_cast : ℕ → MessageType
type_cast n =
    if n == 1
    then process_connection
    else if n == 2
    then swap_request
    else if n == 3
    then swap_confirmation
    else if n == 4
    then invocation_request
    else if n == 5
    then invocation_result
    else if n == 6
    then dataplane_metrics
    else if n == 7
    then process_closure
    else if n == 8
    then application_update
    else if n == 9
    then put_message
    else generic_header

-- The constructor over `MessageData`: zeroed bytes, and the type in the first two.
unfoldable pub new_buffer : MessageType → List ℕ
unfolding type_value
new_buffer t = put_int 2 0 (pos (type_value t)) (replicate buf_size 0)

unfoldable pub total_length : List ℕ → ℤ
total_length buf = get_int 4 2 buf

unfoldable pub set_total_length : ℤ → List ℕ → List ℕ
set_total_length len buf = put_int 4 2 len buf

-- `Message::type` on the bytes.
unfoldable pub header_type : List ℕ → Result MessageType
unfolding check_type type_cast
header_type buf = do n ← check_type (get_int 2 0 buf); ok (type_cast n)

pub length-new_buffer : (t : MessageType) → length (new_buffer t) ≡ buf_size
unfolding new_buffer
length-new_buffer t = length-put_int 2 0 _ _

pub type_cast-type_value : (t : MessageType) → type_cast (type_value t) ≡ t
unfolding type_cast type_value
type_cast-type_value generic_header = refl
type_cast-type_value _ = refl

pub type_value-lt : (t : MessageType) → type_value t < end_flag
unfolding type_value
type_value-lt generic_header = omega arith
type_value-lt _ = omega arith

-- The type that a fresh message carries, read as a word.
pub fresh_type : (t : MessageType) → get_int 2 0 (new_buffer t) ≡ pos (type_value t)
unfolding new_buffer
fresh_type t = get_int-put_int 2 0 (pos (type_value t)) _ refl (omega (arith, type_value-lt t))
