-- ===== src/Wire/Bytes.antt =====
-- Reading and writing at an offset.
use praas.Base.{
  ℕ, zero, suc, ◌+◌, ◌≤◌, ◌≡◌, refl, sym, ap, ◌∙◌, inl, inr, Bool, true, ◌||◌, List, [], ◌∷◌, arith,
  length, take, drop, leb, subst, leb→le, Bool-cases,
}

-- A write past the end of the buffer is no write of this model: callers keep `off + length bs`
-- within the buffer, and say where the code does not.
unfoldable pub put_at : ℕ → List ℕ → List ℕ → List ℕ
put_at zero [] buf = buf
put_at zero (b ∷ bs) [] = []
put_at zero (b ∷ bs) (x ∷ buf) = b ∷ put_at zero bs buf
put_at (suc off) bs [] = []
put_at (suc off) bs (x ∷ buf) = x ∷ put_at off bs buf

unfoldable pub read_at : ℕ → ℕ → List ℕ → List ℕ
read_at off n buf = take n (drop off buf)

pub length-put_at : (off : ℕ) (bs buf : List ℕ) → length (put_at off bs buf) ≡ length buf
unfolding put_at
length-put_at zero [] buf = refl
length-put_at zero (b ∷ bs) [] = refl
length-put_at zero (b ∷ bs) (x ∷ buf) = ap suc (length-put_at zero bs buf)
length-put_at (suc off) bs [] = refl
length-put_at (suc off) bs (x ∷ buf) = ap suc (length-put_at off bs buf)

read_at-put_at_self :
    (off : ℕ) (bs buf : List ℕ)
    → off + length bs ≤ length buf
    → read_at off (length bs) (put_at off bs buf) ≡ bs
unfolding put_at read_at
read_at-put_at_self zero [] buf h = refl
read_at-put_at_self zero (b ∷ bs) [] h = absurd (omega arith)
read_at-put_at_self zero (b ∷ bs) (x ∷ buf) h =
    ap (◌∷◌ b) (read_at-put_at_self zero bs buf (omega arith))
read_at-put_at_self (suc off) bs [] h = absurd (omega arith)
read_at-put_at_self (suc off) bs (x ∷ buf) h = read_at-put_at_self off bs buf (omega arith)

-- What was written is read back.
pub read_at-put_at_eq :
    (n off : ℕ) (bs buf : List ℕ)
    → length bs ≡ n
    → off + n ≤ length buf
    → read_at off n (put_at off bs buf) ≡ bs
read_at-put_at_eq n off bs buf e =
    subst (λ k. off + k ≤ length buf → read_at off k (put_at off bs buf) ≡ bs) e
      (read_at-put_at_self off bs buf)

take-put_at : (m off : ℕ) (bs buf : List ℕ) → m ≤ off → take m (put_at off bs buf) ≡ take m buf
unfolding put_at
take-put_at zero off bs buf h = refl
take-put_at (suc m) zero bs buf h = absurd (omega arith)
take-put_at (suc m) (suc off) bs [] h = refl
take-put_at (suc m) (suc off) bs (x ∷ buf) h = ap (◌∷◌ x) (take-put_at m off bs buf (omega arith))

take-nil : (n : ℕ) → take {A = ℕ} n [] ≡ []
take-nil zero = refl
take-nil (suc n) = refl

take-drop : (i n : ℕ) (xs : List ℕ) → take n (drop i xs) ≡ drop i (take (i + n) xs)
take-drop zero n xs = ground arith
take-drop (suc i) n [] = take-nil n ∙ sym (ap (drop (suc i)) (take-nil (suc i + n)))
take-drop (suc i) n (x ∷ xs) =
    take-drop i n xs
    ∙ ap (λ (m : ℕ). drop (suc i) (take m (x ∷ xs))) {x = suc (i + n)} (omega arith)

-- A view that ends before the write.
read_at-put_at_before :
    (i n off : ℕ) (bs buf : List ℕ)
    → i + n ≤ off
    → read_at i n (put_at off bs buf) ≡ read_at i n buf
unfolding read_at
read_at-put_at_before i n off bs buf h =
    take-drop i n (put_at off bs buf)
    ∙ ap (drop i) (take-put_at (i + n) off bs buf h)
    ∙ sym (take-drop i n buf)

drop-put_at :
    (i off : ℕ) (bs buf : List ℕ) → off + length bs ≤ i → drop i (put_at off bs buf) ≡ drop i buf
unfolding put_at
drop-put_at i zero [] buf h = refl
drop-put_at i zero (b ∷ bs) [] h = refl
drop-put_at zero zero (b ∷ bs) (x ∷ buf) h = absurd (omega arith)
drop-put_at (suc i) zero (b ∷ bs) (x ∷ buf) h = drop-put_at i zero bs buf (omega arith)
drop-put_at i (suc off) bs [] h = refl
drop-put_at zero (suc off) bs (x ∷ buf) h = absurd (omega arith)
drop-put_at (suc i) (suc off) bs (x ∷ buf) h = drop-put_at i off bs buf (omega arith)

-- A view that starts behind the write.
read_at-put_at_behind :
    (i n off : ℕ) (bs buf : List ℕ)
    → off + length bs ≤ i
    → read_at i n (put_at off bs buf) ≡ read_at i n buf
unfolding read_at
read_at-put_at_behind i n off bs buf h = ap (take n) (drop-put_at i off bs buf h)

-- The n bytes from i and the m bytes from off do not meet.
abbrev pub apart : ℕ → ℕ → ℕ → ℕ → Bool
apart i n off m = leb (i + n) off || leb (off + m) i

pub read_at-put_at_ne :
    (i n off : ℕ) (bs buf : List ℕ)
    → apart i n off (length bs) ≡ true
    → read_at i n (put_at off bs buf) ≡ read_at i n buf
read_at-put_at_ne i n off bs buf h = elim (Bool-cases (leb (i + n) off)) [
  | inl before ↦ read_at-put_at_before i n off bs buf (leb→le _ _ before)
  | inr behind ↦ read_at-put_at_behind i n off bs buf (ground arith)
]

-- A shorter view of the same bytes.
pub read_at_shorter :
    (off m n : ℕ) (buf : List ℕ) → m ≤ n → read_at off m buf ≡ take m (read_at off n buf)
unfolding read_at
read_at_shorter off m n buf h = take_shorter m n (drop off buf) h
  where
    take_shorter : (m n : ℕ) (xs : List ℕ) → m ≤ n → take m xs ≡ take m (take n xs)
    take_shorter zero n xs h = refl
    take_shorter (suc m) zero xs h = absurd (omega arith)
    take_shorter (suc m) (suc n) [] h = refl
    take_shorter (suc m) (suc n) (x ∷ xs) h = ap (◌∷◌ x) (take_shorter m n xs (omega arith))
