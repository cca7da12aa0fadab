-- ===== src/MdMemory/Lines.antt =====
-- memory/md_memory.c: the walk over the lines of a text.
use vajra_ai.Prelude.{
  ◌≡◌, refl, ap, ℕ, ◌≤◌, true, false, not, List, [], ◌∷◌, ◌++◌, arith, ◌==◌, all, length, some,
}
use vajra_ai.CString.{Bytes, until_nul, strchr}
use vajra_ai.MdMemory.{content_lines, cut_at}

-- No byte of a text is `c`.
abbrev pub Lacks : ℕ → Bytes → Type 0
Lacks c s = all (λ x. not (x == c)) s ≡ true

-- A line with its line feed.
abbrev pub line_of : Bytes → Bytes
line_of p = p ++ b'\n' ∷ []

pub Lacks-head : (c x : ℕ) (xs : Bytes) → Lacks c (x ∷ xs) → (x == c) ≡ false
Lacks-head c x xs h = ground arith

pub Lacks-tail : (c x : ℕ) (xs : Bytes) → Lacks c (x ∷ xs) → Lacks c xs
Lacks-tail c x xs h = ground arith

pub Lacks-append : (c : ℕ) (s t : Bytes) → Lacks c s → Lacks c t → Lacks c (s ++ t)
Lacks-append c [] t h k = k
Lacks-append c (x ∷ s) t h k = let rest = Lacks-append c s t (Lacks-tail c x s h) k in ground arith

pub content_lines-line_of :
    (p rest : Bytes)
    → Lacks b'\n' p
    → content_lines (line_of p ++ rest) ≡ line_of p ∷ content_lines rest
unfolding content_lines
content_lines-line_of [] rest h = refl
content_lines-line_of (x ∷ p) rest h =
    rw (Lacks-head b'\n' x p h) (rw (content_lines-line_of p rest (Lacks-tail b'\n' x p h)) refl)

-- A text up to a byte that it lacks in front.
pub cut_at-append : (c : ℕ) (p rest : Bytes) → Lacks c p → cut_at c (p ++ c ∷ rest) ≡ p
unfolding cut_at
cut_at-append c [] rest h = ground arith
cut_at-append c (x ∷ p) rest h =
    rw (Lacks-head c x p h) (ap (◌∷◌ x) (cut_at-append c p rest (Lacks-tail c x p h)))

pub strchr-append : (c : ℕ) (p rest : Bytes) → Lacks c p → strchr (p ++ c ∷ rest) c ≡ some (p, rest)
unfolding strchr
strchr-append c [] rest h = ground arith
strchr-append c (x ∷ p) rest h =
    rw (Lacks-head c x p h) (rw (strchr-append c p rest (Lacks-tail c x p h)) refl)

-- Texts of full lines.
pub data FullLines : List Bytes → Type 0 where
  no_lines : FullLines []
  full_line :
      (p : Bytes) (ls : List Bytes)
      → Lacks b'\n' p
      → Lacks 0 p
      → length (line_of p) ≤ 2047
      → FullLines ls
      → FullLines (line_of p ∷ ls)

-- The NUL ends a C string, so a C string has none.
pub until_nul-eq_self : (s : Bytes) → Lacks 0 s → until_nul s ≡ s
unfolding until_nul
until_nul-eq_self [] h = refl
until_nul-eq_self (x ∷ s) h =
    rw (Lacks-head 0 x s h) (ap (◌∷◌ x) (until_nul-eq_self s (Lacks-tail 0 x s h)))

pub until_nul-Lacks : (s : Bytes) → Lacks 0 (until_nul s)
unfolding until_nul
until_nul-Lacks [] = refl
until_nul-Lacks (x ∷ s) = let rest = until_nul-Lacks s in ground arith
