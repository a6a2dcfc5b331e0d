-- ===== src/Ipc/RoundTrip/Typed.antt =====
-- The parser follows the kind in the header.
use praas.Base.{ℕ, ◌≡◌, List, arith}
use praas.Base.Int.{pos}
use praas.Ipc.Header.{Kind, kind_value, kind_value-lt}
use praas.Ipc.Parser.{parse, parse_as}
use praas.Wire.Words.{get_int}

pub parse-typed :
    (k : Kind) (buf : List ℕ)
    → get_int 2 0 buf ≡ pos (kind_value k)
    → parse buf ≡ parse_as (kind_value k) buf
unfolding parse
parse-typed k buf h = rw h (ground (arith, kind_value-lt k))
