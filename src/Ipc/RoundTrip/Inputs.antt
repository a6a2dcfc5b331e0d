-- ===== src/Ipc/RoundTrip/Inputs.antt =====
-- The lengths of an invocation's inputs.
use praas.Base.{
  ℕ, zero, suc, ◌+◌, ◌*◌, ◌^◌, ◌≤◌, ◌≡◌, refl, some, List, [], ◌∷◌, arith, length, get_elem?,
  le→leb, All, ◌∙◌, subst,
}
use praas.Base.Int.{pos, Fits}
use praas.Ipc.InvocationRequest.{
  InvocationRequest, put_lengths, set_buffers, buffers, buffers_length,
}
use praas.Result.{ok}
use praas.Wire.Words.{get_int, put_int, get_int-put_int, length-put_int}
use praas.Wire.Fields.{get_int-put_int_ne}

length-put_lengths : (off : ℕ) (lens buf : List ℕ) → length (put_lengths off lens buf) ≡ length buf
unfolding put_lengths
length-put_lengths off [] buf = refl
length-put_lengths off (len ∷ lens) buf =
    length-put_lengths (off + 4) lens _ ∙ length-put_int 4 off (pos len) buf

-- A word in front of the range stays.
put_lengths_front :
    (k i off : ℕ) (lens buf : List ℕ)
    → i + k ≤ off
    → get_int k i (put_lengths off lens buf) ≡ get_int k i buf
unfolding put_lengths
put_lengths_front k i off [] buf h = refl
put_lengths_front k i off (len ∷ lens) buf h =
    put_lengths_front k i (off + 4) lens _ (omega arith)
    ∙ get_int-put_int_ne k i 4 off (pos len) buf (ground arith)

put_lengths_get :
    (i off : ℕ) (lens buf : List ℕ) {len : ℕ}
    → off + 4 * length lens ≤ length buf
    → All (λ n. Fits (2 ^ 32) (pos n)) lens
    → get_elem? lens i ≡ some len
    → get_int 4 (off + 4 * i) (put_lengths off lens buf) ≡ pos len
unfolding put_lengths
put_lengths_get i off [] buf h f e = cc
put_lengths_get zero off (l ∷ lens) buf {len} h f e =
    subst (λ j. get_int 4 j (put_lengths off (l ∷ lens) buf) ≡ pos len) at_start
      (put_lengths_front 4 off (off + 4) lens _ (omega arith)
        ∙ get_int-put_int 4 off (pos l) buf (le→leb _ _ (omega arith)) f.0
        ∙ cc)
  where
    at_start : off ≡ off + 4 * 0
    at_start = omega arith
put_lengths_get (suc i) off (l ∷ lens) buf {len} h f e =
    subst (λ j. get_int 4 j (put_lengths off (l ∷ lens) buf) ≡ pos len) further
      (put_lengths_get i (off + 4) lens (put_int 4 off (pos l) buf)
        (omega (arith, length-put_int 4 off (pos l) buf)) f.1 e)
  where
    further : off + 4 + 4 * i ≡ off + 4 * suc i
    further = omega arith

-- Up to 13 inputs whose lengths fit in 32 bits are accepted: the count is read back, and the length of
-- every one of them at its place.
pub buffers-set_buffers :
    (lens : List ℕ) (m : InvocationRequest) (i len : ℕ)
    → length m.buf ≡ 128
    → length lens ≤ 13
    → All (λ n. Fits (2 ^ 32) (pos n)) lens
    → get_elem? lens i ≡ some len
    → (m' : InvocationRequest) × (set_buffers lens m ≡ ok m')
      × (buffers m' ≡ pos (length lens))
      × (buffers_length i m' ≡ pos len)
unfolding set_buffers buffers buffers_length
buffers-set_buffers lens m i len full few f e = (
  record m { buf = put_lengths 74 lens counted },
  ground arith,
  put_lengths_front 4 70 74 lens counted (omega arith)
      ∙ get_int-put_int 4 70 (pos (length lens)) m.buf (le→leb _ _ (omega arith)) (omega arith),
  put_lengths_get i 74 lens counted (omega (arith, length-put_int 4 70 (pos (length lens)) m.buf)) f
      e,
)
  where
    counted : List ℕ
    counted = put_int 4 70 (pos (length lens)) m.buf
