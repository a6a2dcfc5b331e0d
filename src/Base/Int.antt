-- ===== src/Base/Int.antt =====
-- Signed integers, and the two's complement words that hold them. `m` is the modulus of the word.
use Prim.Native.Nat.{ℕ, ◌+◌, ◌-◌, ◌%◌, ◌^◌, ◌<◌}
use mathlib.Core.Path.{◌≡◌}
use mathlib.Core.Bool.{Bool, true, false}
use native.Mathlib.Nat.{mod-eq_of_lt}
use native.Mathlib.Omega.{arith}
use praas.Base.Tests.{ltb, if◌then◌else◌}

-- `negsuc n` is -(n + 1).
pub data ℤ : Type 0 where
  pos : ℕ → ℤ
  negsuc : ℕ → ℤ

abbrev pub is_negative : ℤ → Bool
is_negative (pos n) = false
is_negative (negsuc n) = true

-- z fits a signed word of modulus m.
abbrev pub Fits : ℕ → ℤ → Type 0
Fits m (pos n) = n + n < m
Fits m (negsuc n) = n + n + 1 < m

unfoldable pub to_word : ℕ → ℤ → ℕ
to_word m (pos n) = n % m
to_word m (negsuc n) = m - 1 - n % m

unfoldable pub of_word : ℕ → ℕ → ℤ
of_word m w = if ltb (w + w) m then pos w else negsuc (m - 1 - w)

pub to_word-lt : (m : ℕ) (z : ℤ) → 0 < m → to_word m z < m
unfolding to_word
to_word-lt m (pos n) h = grind arith
to_word-lt m (negsuc n) h = omega arith

pub of_word-to_word : (m : ℕ) (z : ℤ) → Fits m z → of_word m (to_word m z) ≡ z
unfolding of_word to_word
of_word-to_word m (pos n) h = rw (mod-eq_of_lt {n = n} {m = m} (omega arith)) (ground arith)
of_word-to_word m (negsuc n) h = rw (mod-eq_of_lt {n = n} {m = m} (omega arith)) (ground arith)

-- `size_t` of a buffer passed for an `int32_t`.
abbrev pub int32 : ℕ → ℤ
int32 n = of_word (2 ^ 32) (n % 2 ^ 32)
