-- ===== src/Prelude/Int.antt =====
-- C's `int` where the program may hand a negative number: the library's constructors over the native ℕ.
use Prim.Native.Nat.{ℕ, zero, suc, ◌+◌, ◌*◌}

-- `negsuc n` is -(n + 1).
pub data ℤ : Type 0 where
  pos : ℕ → ℤ
  negsuc : ℕ → ℤ

-- The number of rounds of `for (i = 0; i < n; i++)`.
abbrev pub pos_part : ℤ → ℕ
pos_part (pos n) = n
pos_part (negsuc n) = 0

-- -n
abbrev pub negated : ℕ → ℤ
negated zero = pos 0
negated (suc n) = negsuc n

-- A product with a factor that is not negative.
abbrev pub scaled : ℤ → ℕ → ℤ
scaled (pos n) k = pos (n * k)
scaled (negsuc n) k = negated (suc n * k)

infixl 20 ◌⊖◌
infixl 20 ◌+ℤ◌
-- The difference of two numbers.
abbrev pub ◌⊖◌ : ℕ → ℕ → ℤ
zero ⊖ n = negated n
suc m ⊖ zero = pos (suc m)
suc m ⊖ suc n = m ⊖ n

abbrev pub ◌+ℤ◌ : ℤ → ℤ → ℤ
pos m +ℤ pos n = pos (m + n)
pos m +ℤ negsuc n = m ⊖ suc n
negsuc m +ℤ pos n = n ⊖ suc m
negsuc m +ℤ negsuc n = negsuc (suc (m + n))
