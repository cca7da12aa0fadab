-- ===== src/CString/Number.antt =====
-- Numbers in texts: the `%d` of sscanf() and of snprintf().
use native.Mathlib.Nat.{pow-suc}
use vajra_ai.Prelude.{
  ℕ, zero, suc, ◌+◌, ◌-◌, ◌*◌, ◌/◌, ◌%◌, ◌^◌, ◌<◌, ◌≡◌, refl, sym, ap, ◌∙◌, inl, inr, Bool, true,
  false, ◌&&◌, Option, none, some, [], ◌∷◌, arith, ltb, leb, ◌==◌, if◌then◌else◌, Bool-cases,
  ltb→lt, ltb-false→le, ◌≤◌,
}
use vajra_ai.Prelude.Int.{ℤ, pos, negsuc, negated}
use vajra_ai.Memory.{Outcome, done, fault, signed_overflow, Ensures}
use vajra_ai.CString.{Bytes, is_space, skip_space}

unfoldable pub is_digit : ℕ → Bool
is_digit c = leb b'0' c && leb c b'9'

-- The digits in front of a text, added to a number, and the text behind them.
unfoldable pub scan_digits : ℕ → Bytes → ℕ × Bytes
unfolding is_digit
scan_digits n [] = (n, [])
scan_digits n (c ∷ cs) =
    let more = scan_digits (n * 10 + (c - b'0')) cs in if is_digit c then more else (n, c ∷ cs)

-- A result of a C computation in `int`, which is 32 bits wide: out of its range, the behaviour is
-- undefined.
unfoldable pub int_result : ℤ → Outcome ℤ
int_result (pos n) = if ltb n (2 ^ 31) then done (pos n) else fault signed_overflow
int_result (negsuc n) = if ltb n (2 ^ 31) then done (negsuc n) else fault signed_overflow

-- The numbers that an int does not hold.
pub data OutOfInt : ℤ → Type 0 where
  above : {n : ℕ} → 2 ^ 31 ≤ n → OutOfInt (pos n)
  below : {n : ℕ} → 2 ^ 31 ≤ n → OutOfInt (negsuc n)

-- The computation is exact or it overflows.
pub int_result-Ensures :
    (z : ℤ) → Ensures (λ e. (e ≡ signed_overflow) × OutOfInt z) (λ r. r ≡ z) (int_result z)
unfolding int_result
int_result-Ensures (pos n) = elim (Bool-cases (ltb n (2 ^ 31))) [
  | inl e ↦ rw e refl
  | inr e ↦ rw e (refl, above (ltb-false→le n (2 ^ 31) e))
]
int_result-Ensures (negsuc n) = elim (Bool-cases (ltb n (2 ^ 31))) [
  | inl e ↦ rw e refl
  | inr e ↦ rw e (refl, below (ltb-false→le n (2 ^ 31) e))
]

-- At least one digit must be there.
unfoldable pub scan_unsigned : Bytes → Option (ℕ × Bytes)
unfolding scan_digits is_digit
scan_unsigned [] = none
scan_unsigned (c ∷ cs) = if is_digit c then some (scan_digits 0 (c ∷ cs)) else none

unfoldable pub with_sign : (ℕ → ℤ) → Option (ℕ × Bytes) → Option (ℤ × Bytes)
with_sign f none = none
with_sign f (some (n, rest)) = some (f n, rest)

unfoldable pub scan_signed : Bytes → Option (ℤ × Bytes)
unfolding scan_unsigned with_sign
scan_signed [] = none
scan_signed (c ∷ cs) =
    if c == b'-'
    then with_sign negated (scan_unsigned cs)
    else if c == b'+'
    then with_sign pos (scan_unsigned cs)
    else with_sign pos (scan_unsigned (c ∷ cs))

-- The conversion `%d` of sscanf: the number and the text behind it.
unfoldable pub scan_int : Bytes → Option (ℤ × Bytes)
unfolding scan_signed skip_space
scan_int s = scan_signed (skip_space s)

-- The digits of a number in front of a text.
unfoldable pub digits_onto : ℕ → ℕ → Bytes → Bytes
digits_onto zero n rest = (b'0' + n) ∷ rest
digits_onto (suc fuel) n rest =
    let more = digits_onto fuel (n / 10) ((b'0' + n % 10) ∷ rest) in
    if ltb n 10 then (b'0' + n) ∷ rest else more

-- The conversion `%d` of printf at a number that is not negative and fits an int: at most ten digits.
unfoldable pub decimal : ℕ → Bytes
unfolding digits_onto
decimal n = digits_onto 9 n []

pub is_digit-digit : (d : ℕ) → d < 10 → is_digit (b'0' + d) ≡ true
unfolding is_digit
is_digit-digit d h = ground arith

scan_digits-digit :
    (n d : ℕ) (rest : Bytes)
    → d < 10
    → scan_digits n ((b'0' + d) ∷ rest) ≡ scan_digits (n * 10 + d) rest
unfolding scan_digits
scan_digits-digit n d rest h =
    let value : b'0' + d - b'0' ≡ d = omega arith in rw (is_digit-digit d h, value) refl

first_digit :
    (n : ℕ) (rest : Bytes) → n < 10 → scan_digits 0 ((b'0' + n) ∷ rest) ≡ scan_digits n rest
first_digit n rest h =
    let value : 0 * 10 + n ≡ n = omega arith in
    scan_digits-digit 0 n rest h ∙ ap (λ (m : ℕ). scan_digits m rest) value

tenth_lt : (n fuel : ℕ) → n < 10 ^ suc (suc fuel) → n / 10 < 10 ^ suc fuel
tenth_lt n fuel h = omega (arith, pow-suc 10 (suc fuel))

-- The digits that are written are read back, in front of any text.
pub scan_digits-digits_onto :
    (fuel n : ℕ) (rest : Bytes)
    → n < 10 ^ suc fuel
    → scan_digits 0 (digits_onto fuel n rest) ≡ scan_digits n rest
unfolding digits_onto
scan_digits-digits_onto zero n rest h = first_digit n rest (omega arith)
scan_digits-digits_onto (suc fuel) n rest h = elim (Bool-cases (ltb n 10)) [
  | inl e ↦ rw (e, digits_onto) (first_digit n rest (ltb→lt n 10 e))
  | inr e ↦
      let whole : n / 10 * 10 + n % 10 ≡ n = omega arith in
      rw (e, digits_onto)
        (scan_digits-digits_onto fuel (n / 10) ((b'0' + n % 10) ∷ rest) (tenth_lt n fuel h)
          ∙ scan_digits-digit (n / 10) (n % 10) rest (omega arith)
          ∙ ap (λ (m : ℕ). scan_digits m rest) whole)
]

digits_onto-head :
    (fuel n : ℕ) (rest : Bytes)
    → n < 10 ^ suc fuel
    → (d : ℕ) × (cs : Bytes) × (digits_onto fuel n rest ≡ (b'0' + d) ∷ cs) × (d < 10)
unfolding digits_onto
digits_onto-head zero n rest h = (n, rest, refl, omega arith)
digits_onto-head (suc fuel) n rest h = elim (Bool-cases (ltb n 10)) [
  | inl e ↦ (n, rest, rw (e, digits_onto) refl, ltb→lt n 10 e)
  | inr e ↦
      let (d, cs, same, test) =
        digits_onto-head fuel (n / 10) ((b'0' + n % 10) ∷ rest) (tenth_lt n fuel h) in
      (d, cs, rw (e, digits_onto) same, test)
]

scan_signed-digit :
    (d : ℕ) (cs : Bytes)
    → d < 10
    → scan_signed ((b'0' + d) ∷ cs) ≡ with_sign pos (some (scan_digits 0 ((b'0' + d) ∷ cs)))
unfolding scan_signed scan_unsigned
scan_signed-digit d cs h =
    let minus : (b'0' + d == b'-') ≡ false = ground arith in
    let plus : (b'0' + d == b'+') ≡ false = ground arith in
    rw (minus, plus, is_digit-digit d h) refl

skip_space-digit : (d : ℕ) (cs : Bytes) → d < 10 → skip_space ((b'0' + d) ∷ cs) ≡ (b'0' + d) ∷ cs
unfolding skip_space
skip_space-digit d cs h =
    let test : is_space (b'0' + d) ≡ false = unfold is_space in ground arith in rw test refl

-- What `%d` writes, `%d` reads back, up to the end of the digits.
pub scan_int-decimal :
    (n : ℕ) (rest : Bytes)
    → n < 2 ^ 31
    → scan_int (digits_onto 9 n rest) ≡ with_sign pos (some (scan_digits n rest))
unfolding scan_int
scan_int-decimal n rest h =
    let small : n < 10 ^ 10 = omega arith in
    let (d, cs, same, test) = digits_onto-head 9 n rest small in
    ap scan_int same
    ∙ ap scan_signed (skip_space-digit d cs test)
    ∙ scan_signed-digit d cs test
    ∙ ap (λ (t : Bytes). with_sign pos (some (scan_digits 0 t))) (sym same)
    ∙ ap (λ (r : ℕ × Bytes). with_sign pos (some r)) (scan_digits-digits_onto 9 n rest small)
