-- ===== src/Wire/Words.antt =====
-- Words in a buffer: the accesses through `reinterpret_cast` to a fixed-width integer.
use native.Mathlib.Nat.{pow-suc, div-add-mod}
use praas.Base.{
  ℕ, zero, true, suc, ◌+◌, ◌*◌, ◌/◌, ◌%◌, ◌^◌, ◌<◌, ◌≡◌, refl, ap, List, [], ◌∷◌, arith, length,
  leb, leb→le,
}
use praas.Base.Int.{ℤ, Fits, to_word, of_word, to_word-lt, of_word-to_word}
use praas.Wire.Bytes.{put_at, read_at, apart, read_at-put_at_eq, read_at-put_at_ne, length-put_at}

-- The k bytes of a word, the lowest first, and the word of some bytes.
unfoldable pub to_bytes : ℕ → ℕ → List ℕ
to_bytes zero w = []
to_bytes (suc k) w = w % 256 ∷ to_bytes k (w / 256)

unfoldable pub of_bytes : List ℕ → ℕ
of_bytes [] = 0
of_bytes (b ∷ bs) = b + 256 * of_bytes bs

pub length-to_bytes : (k w : ℕ) → length (to_bytes k w) ≡ k
unfolding to_bytes
length-to_bytes zero w = refl
length-to_bytes (suc k) w = ap suc (length-to_bytes k (w / 256))

pub of_bytes-to_bytes : (k w : ℕ) → w < 256 ^ k → of_bytes (to_bytes k w) ≡ w
unfolding to_bytes of_bytes
of_bytes-to_bytes zero w h = omega arith
of_bytes-to_bytes (suc k) w h =
    omega (arith, of_bytes-to_bytes k (w / 256) (omega (arith, pow-suc 256 k)), div-add-mod w 256)

-- A signed word of k bytes at an offset.
unfoldable pub get_int : ℕ → ℕ → List ℕ → ℤ
get_int k off buf = of_word (256 ^ k) (of_bytes (read_at off k buf))

unfoldable pub put_int : ℕ → ℕ → ℤ → List ℕ → List ℕ
put_int k off z = put_at off (to_bytes k (to_word (256 ^ k) z))

-- `uint64_t` at an offset.
unfoldable pub get_u64 : ℕ → List ℕ → ℕ
get_u64 off buf = of_bytes (read_at off 8 buf)

unfoldable pub put_u64 : ℕ → ℕ → List ℕ → List ℕ
put_u64 off w = put_at off (to_bytes 8 (w % 2 ^ 64))

-- A single byte, such as a `bool`.
unfoldable pub get_byte : ℕ → List ℕ → ℕ
get_byte off buf = of_bytes (read_at off 1 buf)

unfoldable pub put_byte : ℕ → ℕ → List ℕ → List ℕ
put_byte off b = put_at off (b ∷ [])

pow_pos : (k : ℕ) → 0 < 256 ^ k
pow_pos zero = omega arith
pow_pos (suc k) = omega (arith, pow-suc 256 k, pow_pos k)

pub length-put_int : (k off : ℕ) (z : ℤ) (buf : List ℕ) → length (put_int k off z buf) ≡ length buf
unfolding put_int
length-put_int k off z buf = length-put_at off _ buf

pub length-put_u64 : (off w : ℕ) (buf : List ℕ) → length (put_u64 off w buf) ≡ length buf
unfolding put_u64
length-put_u64 off w buf = length-put_at off _ buf

pub read_at-put_int_ne :
    (i n k off : ℕ) (z : ℤ) (buf : List ℕ)
    → apart i n off k ≡ true
    → read_at i n (put_int k off z buf) ≡ read_at i n buf
unfolding put_int
read_at-put_int_ne i n k off z buf h = read_at-put_at_ne i n off _ buf (rw length-to_bytes h)

pub read_at-put_u64_ne :
    (i n off w : ℕ) (buf : List ℕ)
    → apart i n off 8 ≡ true
    → read_at i n (put_u64 off w buf) ≡ read_at i n buf
unfolding put_u64
read_at-put_u64_ne i n off w buf h = read_at-put_at_ne i n off _ buf (rw length-to_bytes h)

-- The word that was written is read back.
pub get_int-put_int :
    (k off : ℕ) (z : ℤ) (buf : List ℕ)
    → leb (off + k) (length buf) ≡ true
    → Fits (256 ^ k) z
    → get_int k off (put_int k off z buf) ≡ z
unfolding get_int put_int
get_int-put_int k off z buf h f =
    rw
      (
        read_at-put_at_eq k off _ buf (length-to_bytes k _) (leb→le _ _ h),
        of_bytes-to_bytes k _ (to_word-lt (256 ^ k) z (pow_pos k)),
      )
      (of_word-to_word (256 ^ k) z f)

pub get_u64-put_u64 :
    (off w : ℕ) (buf : List ℕ)
    → leb (off + 8) (length buf) ≡ true
    → w < 2 ^ 64
    → get_u64 off (put_u64 off w buf) ≡ w
unfolding get_u64 put_u64
get_u64-put_u64 off w buf h f =
    rw
      (
        read_at-put_at_eq 8 off _ buf (length-to_bytes 8 _) (leb→le _ _ h),
        of_bytes-to_bytes 8 (w % 2 ^ 64) (omega arith),
      )
      (omega arith)

pub length-put_byte : (off b : ℕ) (buf : List ℕ) → length (put_byte off b buf) ≡ length buf
unfolding put_byte
length-put_byte off b buf = length-put_at off _ buf

pub read_at-put_byte_ne :
    (i n off b : ℕ) (buf : List ℕ)
    → apart i n off 1 ≡ true
    → read_at i n (put_byte off b buf) ≡ read_at i n buf
unfolding put_byte
read_at-put_byte_ne i n off b buf h = read_at-put_at_ne i n off _ buf h

pub get_byte-put_byte :
    (off b : ℕ) (buf : List ℕ)
    → leb (off + 1) (length buf) ≡ true
    → get_byte off (put_byte off b buf) ≡ b
unfolding get_byte put_byte of_bytes
get_byte-put_byte off b buf h =
    rw (read_at-put_at_eq 1 off (b ∷ []) buf refl (leb→le _ _ h)) (omega arith)
