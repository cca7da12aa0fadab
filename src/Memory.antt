-- ===== src/Memory.antt =====
-- What a C function may do besides returning: read through a NULL pointer, write past an array,
-- leave the range of an int, or free twice. Code that does none of these returns `done`.
use vajra_ai.Prelude.{◌≡◌, refl}

pub data Fault : Type 0 where
  null_pointer out_of_bounds signed_overflow double_free : Fault

pub data Outcome {ℓ} (A : Type ℓ) : Type ℓ where
  done : A → Outcome A
  fault : Fault → Outcome A

infixl 5 ◌>>=◌
abbrev pub ◌>>=◌ {ℓ κ} : {A : Type ℓ} {B : Type κ} → Outcome A → (A → Outcome B) → Outcome B
done a >>= f = f a
fault e >>= f = fault e

-- The inversion of a step that returned.
pub >>=-eq-done {ℓ κ} :
    {A : Type ℓ} {B : Type κ} (m : Outcome A) (f : A → Outcome B) {b : B}
    → (m >>= f) ≡ done b
    → (a : A) × (m ≡ done a) × (f a ≡ done b)
>>=-eq-done (done a) f h = (a, refl, h)
>>=-eq-done (fault e) f h = cc

-- `P` holds of what is returned, and `Q` of a fault.
abbrev pub Ensures {ℓ κ} : {A : Type ℓ} → (Fault → Type κ) → (A → Type κ) → Outcome A → Type κ
Ensures Q P (done a) = P a
Ensures Q P (fault e) = Q e

pub Ensures-bind {ℓ κ} :
    {A B : Type ℓ} (Q : Fault → Type κ) (P : A → Type κ) (R : B → Type κ) (m : Outcome A)
    (f : A → Outcome B)
    → Ensures Q P m
    → ((a : A) → P a → Ensures Q R (f a))
    → Ensures Q R (m >>= f)
Ensures-bind Q P R (done a) f h k = k a h
Ensures-bind Q P R (fault e) f h k = h
