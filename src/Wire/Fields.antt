-- ===== src/Wire/Fields.antt =====
-- The laws of the accessors as rule sets: an access to one field passes every write to another.
use praas.Base.{ℕ, ◌≡◌, true, List}
use praas.Base.Int.{ℤ}
use praas.Base.Text.{Text}
use praas.Wire.Bytes.{apart}
use praas.Wire.Words.{
  get_int, put_int, get_u64, put_u64, length-put_int, length-put_u64, read_at-put_int_ne,
  read_at-put_u64_ne, get_int-put_int, get_u64-put_u64, get_byte, put_byte, length-put_byte,
  read_at-put_byte_ne, get_byte-put_byte,
}
use praas.Wire.Names.{put_name, length-put_name, read_at-put_name_ne, read_at-put_name}

pub get_int-put_int_ne :
    (k i n off : ℕ) (z : ℤ) (buf : List ℕ)
    → apart i k off n ≡ true
    → get_int k i (put_int n off z buf) ≡ get_int k i buf
unfolding get_int
get_int-put_int_ne k i n off z buf h = rw (read_at-put_int_ne i k n off z buf h)

pub get_int-put_name_ne :
    (k i n off : ℕ) (s : Text) (buf : List ℕ)
    → apart i k off n ≡ true
    → get_int k i (put_name n off s buf) ≡ get_int k i buf
unfolding get_int
get_int-put_name_ne k i n off s buf h = rw (read_at-put_name_ne i k n off s buf h)

pub get_int-put_u64_ne :
    (k i off w : ℕ) (buf : List ℕ)
    → apart i k off 8 ≡ true
    → get_int k i (put_u64 off w buf) ≡ get_int k i buf
unfolding get_int
get_int-put_u64_ne k i off w buf h = rw (read_at-put_u64_ne i k off w buf h)

pub get_u64-put_int_ne :
    (i k off : ℕ) (z : ℤ) (buf : List ℕ)
    → apart i 8 off k ≡ true
    → get_u64 i (put_int k off z buf) ≡ get_u64 i buf
unfolding get_u64
get_u64-put_int_ne i k off z buf h = rw (read_at-put_int_ne i 8 k off z buf h)

pub get_int-put_byte_ne :
    (k i off b : ℕ) (buf : List ℕ)
    → apart i k off 1 ≡ true
    → get_int k i (put_byte off b buf) ≡ get_int k i buf
unfolding get_int
get_int-put_byte_ne k i off b buf h = rw (read_at-put_byte_ne i k off b buf h)

pub get_byte-put_int_ne :
    (i k off : ℕ) (z : ℤ) (buf : List ℕ)
    → apart i 1 off k ≡ true
    → get_byte i (put_int k off z buf) ≡ get_byte i buf
unfolding get_byte
get_byte-put_int_ne i k off z buf h = rw (read_at-put_int_ne i 1 k off z buf h)

pub get_byte-put_name_ne :
    (i n off : ℕ) (s : Text) (buf : List ℕ)
    → apart i 1 off n ≡ true
    → get_byte i (put_name n off s buf) ≡ get_byte i buf
unfolding get_byte
get_byte-put_name_ne i n off s buf h = rw (read_at-put_name_ne i 1 n off s buf h)

pub ruleset field_lengths = (length-put_int, length-put_name, length-put_u64, length-put_byte)

pub ruleset other_fields = (
  read_at-put_int_ne, read_at-put_name_ne, read_at-put_u64_ne, get_int-put_int_ne,
  get_int-put_name_ne, get_int-put_u64_ne, get_u64-put_int_ne, read_at-put_byte_ne,
  get_int-put_byte_ne, get_byte-put_int_ne, get_byte-put_name_ne,
)

pub ruleset fields = (
  other_fields, field_lengths, get_int-put_int, get_u64-put_u64, get_byte-put_byte,
  read_at-put_name,
)
