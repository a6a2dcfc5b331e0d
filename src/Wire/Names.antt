-- ===== src/Wire/Names.antt =====
-- Names in a buffer: fixed-width fields filled by `strncpy` and measured by `strnlen`.
use praas.Base.{
  ℕ, zero, suc, ◌+◌, ◌≤◌, ◌<◌, ◌≡◌, refl, ap, ◌∙◌, true, List, [], ◌∷◌, arith, length, take, All,
  leb, leb→le,
}
use praas.Base.Text.{Text}
use praas.Wire.Bytes.{
  put_at, read_at, apart, read_at-put_at_eq, read_at-put_at_ne, length-put_at, read_at_shorter,
}

-- `strncpy(dst, src, n)`: up to n bytes of the source, to its NUL, and NULs up to n. The source is
-- a text whose end is followed by a NUL in memory, as in the `std::string`s that the code passes.
unfoldable pub strncpy : ℕ → Text → List ℕ
strncpy zero s = []
strncpy (suc n) [] = 0 ∷ strncpy n []
strncpy (suc n) (zero ∷ s) = 0 ∷ strncpy n []
strncpy (suc n) (suc c ∷ s) = suc c ∷ strncpy n s

-- `strnlen(p, n)`, over the n bytes at p.
unfoldable pub strnlen : List ℕ → ℕ
strnlen [] = 0
strnlen (zero ∷ bs) = 0
strnlen (suc c ∷ bs) = suc (strnlen bs)

-- A text with no NUL inside that fits a field of n bytes.
abbrev pub IsName : ℕ → Text → Type 0
IsName n s = (length s ≤ n) × All (λ c. 0 < c) s

pub length-strncpy : (n : ℕ) (s : Text) → length (strncpy n s) ≡ n
unfolding strncpy
length-strncpy zero s = refl
length-strncpy (suc n) [] = ap suc (length-strncpy n [])
length-strncpy (suc n) (zero ∷ s) = ap suc (length-strncpy n [])
length-strncpy (suc n) (suc c ∷ s) = ap suc (length-strncpy n s)

pub strnlen-strncpy : (n : ℕ) (s : Text) → IsName n s → strnlen (strncpy n s) ≡ length s
unfolding strncpy strnlen
strnlen-strncpy zero [] h = refl
strnlen-strncpy zero (c ∷ s) h = absurd (omega arith)
strnlen-strncpy (suc n) [] h = refl
strnlen-strncpy (suc n) (zero ∷ s) h = absurd (omega arith)
strnlen-strncpy (suc n) (suc c ∷ s) (l, p) = ap suc (strnlen-strncpy n s (omega arith, p.1))

pub take-strncpy : (n : ℕ) (s : Text) → IsName n s → take (length s) (strncpy n s) ≡ s
unfolding strncpy
take-strncpy zero [] h = refl
take-strncpy zero (c ∷ s) h = absurd (omega arith)
take-strncpy (suc n) [] h = refl
take-strncpy (suc n) (zero ∷ s) h = absurd (omega arith)
take-strncpy (suc n) (suc c ∷ s) (l, p) = ap (◌∷◌ (suc c)) (take-strncpy n s (omega arith, p.1))

-- The field of n bytes at an offset.
unfoldable pub put_name : ℕ → ℕ → Text → List ℕ → List ℕ
put_name n off s = put_at off (strncpy n s)

pub length-put_name :
    (n off : ℕ) (s : Text) (buf : List ℕ) → length (put_name n off s buf) ≡ length buf
unfolding put_name
length-put_name n off s buf = length-put_at off _ buf

pub read_at-put_name_ne :
    (i m n off : ℕ) (s : Text) (buf : List ℕ)
    → apart i m off n ≡ true
    → read_at i m (put_name n off s buf) ≡ read_at i m buf
unfolding put_name
read_at-put_name_ne i m n off s buf h = read_at-put_at_ne i m off _ buf (rw length-strncpy h)

pub read_at-put_name :
    (n off : ℕ) (s : Text) (buf : List ℕ)
    → leb (off + n) (length buf) ≡ true
    → read_at off n (put_name n off s buf) ≡ strncpy n s
unfolding put_name
read_at-put_name n off s buf h = read_at-put_at_eq n off _ buf (length-strncpy n s) (leb→le _ _ h)

-- A field that holds a name, seen through a view of the name's length, whether that is cached by
-- the setter or measured by the constructor.
module _ (n off : ℕ) (s : Text) (buf : List ℕ) (holds : read_at off n buf ≡ strncpy n s) where
  pub view_cached : IsName n s → read_at off (length s) buf ≡ s
  view_cached is =
      read_at_shorter off (length s) n buf is.0 ∙ ap (take (length s)) holds ∙ take-strncpy n s is

  pub measured : IsName n s → strnlen (read_at off n buf) ≡ length s
  measured is = ap strnlen holds ∙ strnlen-strncpy n s is
