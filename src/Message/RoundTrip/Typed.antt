-- ===== src/Message/RoundTrip/Typed.antt =====
-- The parser follows the type in the header.
use praas.Base.{ℕ, ◌≡◌, List, arith}
use praas.Base.Int.{pos}
use praas.Message.Header.{MessageType, type_value, type_value-lt}
use praas.Message.Parser.{parse, parse_as}
use praas.Wire.Words.{get_int}

pub parse-typed :
    (t : MessageType) (buf : List ℕ)
    → get_int 2 0 buf ≡ pos (type_value t)
    → parse buf ≡ parse_as (type_value t) buf
unfolding parse
parse-typed t buf h = rw h (ground (arith, type_value-lt t))
