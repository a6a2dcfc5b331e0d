-- ===== src/Message/Classes.antt =====
-- The parser and the type in the header of a message: two readings of the same word.
use praas.Base.{ℕ, zero, suc, ◌<◌, ◌≤◌, ◌≡◌, refl, ◌⊎◌, inl, inr, List, arith, leb, Bool-cases}
use praas.Base.Int.{ℤ, pos, negsuc}
use praas.Message.Header
use praas.Message.Header.{MessageType, header_type, check_type, type_cast, type_value, end_flag}
use praas.Message.Parser
use praas.Message.Parser.{MessageVariants, parse, parse_as, check_range}
use praas.Result.{Result, ok, err, ◌>>=◌, invalid_message, not_implemented}
use praas.Wire.Words.{get_int}

-- The type that each class carries.
abbrev pub class_of : MessageVariants → MessageType
class_of (Parser.process_connection m) = Header.process_connection
class_of (Parser.swap_request m) = Header.swap_request
class_of (Parser.swap_confirmation m) = Header.swap_confirmation
class_of (Parser.invocation_request m) = Header.invocation_request
class_of (Parser.invocation_result m) = Header.invocation_result
class_of (Parser.dataplane_metrics m) = Header.dataplane_metrics
class_of (Parser.process_closure m) = Header.process_closure
class_of (Parser.application_update m) = Header.application_update
class_of (Parser.put_message m) = Header.put_message

-- No type has the value.
abbrev pub OutOfRange : ℤ → Type 0
OutOfRange (pos n) = 10 ≤ n
OutOfRange (negsuc n) = Unit {0}

-- How the parser and `type` read a message with a value in its header.
abbrev pub Classified : ℤ → Result MessageVariants → Result MessageType → Type 0
Classified z parsed typed =
    ((v : MessageVariants) × (parsed ≡ ok v)
      × (typed ≡ ok (class_of v))
      × (z ≡ pos (type_value (class_of v))))
    ⊎ (((z ≡ pos 0) × (parsed ≡ err not_implemented) × (typed ≡ ok Header.generic_header))
        ⊎ (OutOfRange z × (parsed ≡ err invalid_message) × (typed ≡ err invalid_message)))

in_range :
    (n : ℕ) (buf : List ℕ) → n < end_flag → Classified (pos n) (parse_as n buf) (ok (type_cast n))
unfolding parse_as type_cast type_value
in_range zero buf h = inr (inl (refl, refl, refl))
in_range (suc zero) buf h = inl (_, refl, refl, refl)
in_range (suc (suc zero)) buf h = inl (_, refl, refl, refl)
in_range (suc (suc (suc zero))) buf h = inl (_, refl, refl, refl)
in_range (suc (suc (suc (suc zero)))) buf h = inl (_, refl, refl, refl)
in_range (suc (suc (suc (suc (suc zero))))) buf h = inl (_, refl, refl, refl)
in_range (suc (suc (suc (suc (suc (suc zero)))))) buf h = inl (_, refl, refl, refl)
in_range (suc (suc (suc (suc (suc (suc (suc zero))))))) buf h = inl (_, refl, refl, refl)
in_range (suc (suc (suc (suc (suc (suc (suc (suc zero)))))))) buf h = inl (_, refl, refl, refl)
in_range (suc (suc (suc (suc (suc (suc (suc (suc (suc zero))))))))) buf h =
    inl (_, refl, refl, refl)
in_range (suc (suc (suc (suc (suc (suc (suc (suc (suc (suc n)))))))))) buf h =
    absurd (omega (arith, h))

-- Every message is read in one of three ways, as the value in its header says. It is the value of a
-- type other than the generic one, and then the parser returns an object of the class of that type,
-- and `type` returns the type; or it is 0, for which the parser throws NotImplementedError and `type`
-- returns the generic type; or it is negative or 10 and more, and both throw InvalidMessage.
pub parse-header_type : (buf : List ℕ) → Classified (get_int 2 0 buf) (parse buf) (header_type buf)
unfolding parse header_type check_type check_range
parse-header_type buf = read (get_int 2 0 buf)
  where
    Reads : ℤ → Result ℕ → Result ℕ → Type 0
    Reads z r q = Classified z (r >>= λ n. parse_as n buf) (q >>= λ n. ok (type_cast n))

    read : (z : ℤ) → Reads z (check_range z) (check_type z)
    read (pos n) = elim (Bool-cases (leb end_flag n)) [
      | inl above ↦ rw above (inr (inr (ground (arith, above), refl, refl)))
      | inr below ↦ rw below (in_range n buf (ground (arith, below)))
    ]
    read (negsuc n) = inr (inr (tt, refl, refl))
