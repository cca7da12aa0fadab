-- ===== src/CString/Search.antt =====
-- Laws of `strstr`.
use vajra_ai.Prelude.{
  ℕ, ◌≤◌, ◌≡◌, ◌⊎◌, refl, ap, ◌∙◌, Bool, true, false, ◌&&◌, Option, none, some, [], ◌∷◌, ◌++◌,
  arith, ◌==◌, if◌then◌else◌, length, inl, inr, length-append,
}
use vajra_ai.CString.{Bytes, has_prefix, cons_before, strstr}

-- A text that is long enough decides alone whether `p` stands in front.
has_prefix-append_long :
    (s b p : Bytes) → length p ≤ length s → has_prefix (s ++ b) p ≡ has_prefix s p
unfolding has_prefix
has_prefix-append_long s b [] h = refl
has_prefix-append_long [] b (y ∷ p) h = absurd (omega arith)
has_prefix-append_long (x ∷ s) b (y ∷ p) h =
    ap (λ (t : Bool). (x == y) && t) (has_prefix-append_long s b p (omega arith))

has_prefix-length : (s p : Bytes) → has_prefix s p ≡ true → length p ≤ length s
unfolding has_prefix
has_prefix-length s [] h = omega arith
has_prefix-length [] (y ∷ p) h = cc
has_prefix-length (x ∷ s) (y ∷ p) h = ground (arith, has_prefix-length s p)

-- The two parts make up the text, and the second begins with `p`.
pub record Found (s p a b : Bytes) : Type 0 where
  pub splits : s ≡ a ++ b
  pub starts : has_prefix b p ≡ true
  pub long : length p ≤ length b

cons_before-eq-some :
    (x : ℕ) (o : Option (Bytes × Bytes)) (a b : Bytes)
    → cons_before x o ≡ some (a, b)
    → (a' : Bytes) × (o ≡ some (a', b)) × (a ≡ x ∷ a')
cons_before-eq-some x none a b h = cc
cons_before-eq-some x (some (c, d)) a b h = (c, ground arith, ground arith)

-- What one test of `strstr` decides.
strstr_here :
    (s p : Bytes) (o : Option (Bytes × Bytes)) (a b : Bytes)
    → (if has_prefix s p then some ([], s) else o) ≡ some (a, b)
    → ((has_prefix s p ≡ true) × (a ≡ []) × (b ≡ s))
      ⊎ ((has_prefix s p ≡ false) × (o ≡ some (a, b)))
strstr_here s p o a b h = ground arith

pub strstr-Found : (s p a b : Bytes) → strstr s p ≡ some (a, b) → Found s p a b
unfolding strstr
strstr-Found [] p a b h = elim (strstr_here [] p none a b h) [
  | inl (pre, ea, eb) ↦ record {
    splits = rw (ea, eb) refl;
    starts = rw eb pre;
    long = rw eb (has_prefix-length [] p pre);
  }
  | inr (_, e) ↦ cc
]
strstr-Found (x ∷ xs) p a b h = elim (strstr_here (x ∷ xs) p (cons_before x (strstr xs p)) a b h) [
  | inl (pre, ea, eb) ↦ record {
    splits = rw (ea, eb) refl;
    starts = rw eb pre;
    long = rw eb (has_prefix-length (x ∷ xs) p pre);
  }
  | inr (_, e) ↦
      let (a', later, ea) = cons_before-eq-some x (strstr xs p) a b e in
      let f = strstr-Found xs p a' b later in
      record { splits = rw ea (ap (◌∷◌ x) f.splits); starts = f.starts; long = f.long }
]

strstr-eq-prefix : (s p : Bytes) → has_prefix s p ≡ true → strstr s p ≡ some ([], s)
unfolding strstr
strstr-eq-prefix [] p h = rw h refl
strstr-eq-prefix (x ∷ xs) p h = rw h refl

-- What follows a text does not change where the first occurrence inside the text is found.
pub strstr-append :
    (s p a b r : Bytes) → strstr s p ≡ some (a, b) → strstr (s ++ r) p ≡ some (a, b ++ r)
unfolding strstr
strstr-append [] p a b r h = elim (strstr_here [] p none a b h) [
  | inl (pre, ea, eb) ↦
      rw (ea, eb)
        (strstr-eq-prefix r p (has_prefix-append_long [] r p (has_prefix-length [] p pre) ∙ pre))
  | inr (_, e) ↦ cc
]
strstr-append (x ∷ xs) p a b r h =
    elim (strstr_here (x ∷ xs) p (cons_before x (strstr xs p)) a b h) [
      | inl (pre, ea, eb) ↦
          rw (ea, eb)
            (strstr-eq-prefix (x ∷ (xs ++ r)) p
              (has_prefix-append_long (x ∷ xs) r p (has_prefix-length (x ∷ xs) p pre) ∙ pre))
      | inr (no_match, e) ↦
          let (a', later, ea) = cons_before-eq-some x (strstr xs p) a b e in
          let f = strstr-Found xs p a' b later in
          let long : length p ≤ length (x ∷ xs) =
            omega (arith, f.long, ap length f.splits, length-append a' b) in
          rw (has_prefix-append_long (x ∷ xs) r p long ∙ no_match)
            (rw (strstr-append xs p a' b r later) (rw ea refl))
    ]
