-- ===== src/Types/Trim.antt =====
-- `str_trim` of core/types.c: what it takes off and what it leaves.
use vajra_ai.Prelude.{
  ◌≡◌, refl, sym, ap, inl, inr, ℕ, ◌∙◌, true, false, [], ◌∷◌, ◌++◌, all, Bool-cases,
}
use vajra_ai.CString.{Bytes, is_space, skip_space, strip_cons, strip_end}
use vajra_ai.CString.Laws.{skip_space-split}
use vajra_ai.Types.{str_trim, trim_tail}

-- Neither end of the text is white space (the empty text has no ends).
abbrev pub StartsTight : Bytes → Type 0
StartsTight [] = Unit {0}
StartsTight (c ∷ cs) = is_space c ≡ false

abbrev pub EndsTight : Bytes → Type 0
EndsTight [] = Unit {0}
EndsTight (c ∷ []) = is_space c ≡ false
EndsTight (c ∷ d ∷ ds) = EndsTight (d ∷ ds)

-- `t` is `s` without the white space at its two ends.
pub record IsTrimOf (s t : Bytes) : Type 0 where
  pub before : Bytes
  pub behind : Bytes
  pub splits : s ≡ before ++ (t ++ behind)
  pub before_blank : all is_space before ≡ true
  pub behind_blank : all is_space behind ≡ true
  pub starts : StartsTight t
  pub ends : EndsTight t

skip_space-StartsTight : (s : Bytes) → StartsTight (skip_space s)
unfolding skip_space
skip_space-StartsTight [] = tt
skip_space-StartsTight (c ∷ cs) = elim (Bool-cases (is_space c)) [
  | inl e ↦ rw e (skip_space-StartsTight cs)
  | inr e ↦ rw e e
]

strip_cons-split :
    (c : ℕ) (r post : Bytes)
    → all is_space post ≡ true
    → EndsTight r
    → (q : Bytes) × (c ∷ (r ++ post) ≡ strip_cons c r ++ q)
      × (all is_space q ≡ true)
      × EndsTight (strip_cons c r)
unfolding strip_cons
strip_cons-split c [] post a e = elim (Bool-cases (is_space c)) [
  | inl s ↦ (c ∷ post, rw s refl, rw s a, rw s tt)
  | inr s ↦ (post, rw s refl, a, rw s s)
]
strip_cons-split c (d ∷ ds) post a e = (post, refl, a, e)

strip_end-split :
    (s : Bytes)
    → (post : Bytes) × (s ≡ strip_end s ++ post)
      × (all is_space post ≡ true)
      × EndsTight (strip_end s)
unfolding strip_end
strip_end-split [] = ([], refl, refl, tt)
strip_end-split (c ∷ cs) =
    let (post, s, a, e) = strip_end-split cs in
    let (q, s', a', e') = strip_cons-split c (strip_end cs) post a e in
    (q, ap (◌∷◌ c) s ∙ s', a', e')

strip_cons-tight : (c : ℕ) (r : Bytes) → is_space c ≡ false → strip_cons c r ≡ c ∷ r
unfolding strip_cons
strip_cons-tight c [] h = rw h refl
strip_cons-tight c (d ∷ ds) h = refl

-- A text with no white space in front is trimmed by `strip_end` alone.
trim_tail-eq-strip_end : (s : Bytes) → StartsTight s → trim_tail s ≡ strip_end s
unfolding trim_tail
trim_tail-eq-strip_end [] h = refl
trim_tail-eq-strip_end (c ∷ cs) h = sym (strip_cons-tight c (strip_end cs) h)

trim_tail-StartsTight : (s : Bytes) → StartsTight s → StartsTight (trim_tail s)
unfolding trim_tail
trim_tail-StartsTight [] h = tt
trim_tail-StartsTight (c ∷ cs) h = h

-- `str_trim` takes exactly the white space at the two ends of its argument: what is left begins
-- and ends with another byte, or is empty, and all that was taken is white space.
pub str_trim-IsTrimOf : (s : Bytes) → IsTrimOf s (str_trim s)
unfolding str_trim
str_trim-IsTrimOf s =
    let (pre, s₁, blank) = skip_space-split s in
    let tight = skip_space-StartsTight s in
    let (post, s₂, blank', ends) = strip_end-split (skip_space s) in
    let e = trim_tail-eq-strip_end (skip_space s) tight in
    record {
      before = pre;
      behind = post;
      splits = s₁ ∙ ap (◌++◌ pre) (rw e s₂);
      before_blank = blank;
      behind_blank = blank';
      starts = trim_tail-StartsTight (skip_space s) tight;
      ends = rw e ends;
    }

skip_space-tight : (s : Bytes) → StartsTight s → skip_space s ≡ s
unfolding skip_space
skip_space-tight [] h = refl
skip_space-tight (c ∷ cs) h = rw h refl

strip_cons-ends : (c : ℕ) (s : Bytes) → EndsTight (c ∷ s) → strip_cons c s ≡ c ∷ s
unfolding strip_cons
strip_cons-ends c [] h = rw h refl
strip_cons-ends c (d ∷ ds) h = refl

EndsTight-tail : (c : ℕ) (s : Bytes) → EndsTight (c ∷ s) → EndsTight s
EndsTight-tail c [] h = tt
EndsTight-tail c (d ∷ ds) h = h

strip_end-tight : (s : Bytes) → EndsTight s → strip_end s ≡ s
unfolding strip_end
strip_end-tight [] h = refl
strip_end-tight (c ∷ cs) h =
    rw (strip_end-tight cs (EndsTight-tail c cs h)) (strip_cons-ends c cs h)

-- A text with no white space at its ends is left as it is.
pub str_trim-tight : (s : Bytes) → StartsTight s → EndsTight s → str_trim s ≡ s
unfolding str_trim
str_trim-tight s h e = rw (skip_space-tight s h) (trim_tail-eq-strip_end s h ∙ strip_end-tight s e)
