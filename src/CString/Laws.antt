-- ===== src/CString/Laws.antt =====
-- Laws of the string functions.
use vajra_ai.Prelude.{◌≡◌, refl, ap, ◌↔◌, inl, inr, true, [], ◌∷◌, ◌++◌, arith, all, Bool-cases}
use vajra_ai.CString.{Bytes, is_space, equal, has_prefix, skip_space}

-- The comparison finds exactly the equal strings.
pub equal_iff : (s t : Bytes) → (equal s t ≡ true) ↔ (s ≡ t)
unfolding equal
equal_iff [] [] = ground arith
equal_iff [] (d ∷ ds) = ground arith
equal_iff (c ∷ cs) [] = ground arith
equal_iff (c ∷ cs) (d ∷ ds) = ground (arith, equal_iff cs ds)

pub equal_refl : (a : Bytes) → equal a a ≡ true
equal_refl a = (equal_iff a a).1 refl

pub has_prefix-append : (p s : Bytes) → has_prefix (p ++ s) p ≡ true
unfolding has_prefix
has_prefix-append [] [] = refl
has_prefix-append [] (x ∷ s) = refl
has_prefix-append (c ∷ p) s = ground (arith, has_prefix-append p s)

-- The loop of `skip_space` takes white space only.
pub skip_space-split :
    (s : Bytes) → (pre : Bytes) × (s ≡ pre ++ skip_space s) × (all is_space pre ≡ true)
unfolding skip_space
skip_space-split [] = ([], refl, refl)
skip_space-split (c ∷ cs) = elim (Bool-cases (is_space c)) [
  | inl e ↦ let (pre, s, a) = skip_space-split cs in (c ∷ pre, rw e (ap (◌∷◌ c) s), rw e a)
  | inr e ↦ ([], rw e, refl)
]
