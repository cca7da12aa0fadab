-- ===== src/Providers/Detect.antt =====
-- providers/registry.c: which provider a key and a URL lead to.
use vajra_ai.Prelude.{
  ◌≡◌, refl, ap, inl, inr, Bool, true, false, not, all, Option, none, some, List, [], ◌∷◌, ◌++◌,
  Bool-cases,
}
use vajra_ai.CString.{Bytes}
use vajra_ai.Providers.{ProviderSpec, providers, first_spec, detects, registry_detect}

-- No entry has the property.
abbrev pub none_of : (ProviderSpec → Bool) → List ProviderSpec → Bool
none_of p ss = all (λ (s : ProviderSpec). not (p s)) ss

-- A result of the loop: an entry with the property such that none in front of it has it, or no
-- entry of the table with the property.
abbrev pub IsFirst : (ProviderSpec → Bool) → List ProviderSpec → Option ProviderSpec → Type 0
IsFirst p ss none = none_of p ss ≡ true
IsFirst p ss (some s) =
    (before : List ProviderSpec) × (behind : List ProviderSpec) × (ss ≡ before ++ s ∷ behind)
    × (p s ≡ true)
    × (none_of p before ≡ true)

IsFirst-cons :
    (p : ProviderSpec → Bool) (t : ProviderSpec) (ss : List ProviderSpec) (o : Option ProviderSpec)
    → p t ≡ false
    → IsFirst p ss o
    → IsFirst p (t ∷ ss) o
IsFirst-cons p t ss none e h = rw e h
IsFirst-cons p t ss (some s) e (before, behind, split, hit, rest) =
    (t ∷ before, behind, ap (◌∷◌ t) split, hit, rw e rest)

first_spec-IsFirst :
    (p : ProviderSpec → Bool) (ss : List ProviderSpec) → IsFirst p ss (first_spec p ss)
unfolding first_spec
first_spec-IsFirst p [] = refl
first_spec-IsFirst p (t ∷ ss) = elim (Bool-cases (p t)) [
  | inl e ↦ rw e ([], ss, refl, e, refl)
  | inr e ↦ rw e (IsFirst-cons p t ss _ e (first_spec-IsFirst p ss))
]

-- The provider that is detected is the first of the table whose key prefix begins the key or whose
-- keyword occurs in the URL, so the order of the table decides and not which of the two matches;
-- nothing is detected exactly where no entry matches either.
pub registry_detect-IsFirst :
    (api_key api_url : Option Bytes)
    → IsFirst (detects api_key api_url) providers (registry_detect api_key api_url)
unfolding registry_detect
registry_detect-IsFirst api_key api_url = first_spec-IsFirst (detects api_key api_url) providers
