-- ===== src/Files.antt =====
-- Reading a text file line by line with fgets().
use vajra_ai.Prelude.{ℕ, ◌-◌, true, false, ◌||◌, leb, map, List, [], ◌∷◌, ◌++◌, ◌==◌}
use vajra_ai.CString.{Bytes, until_nul}

-- The lines that `fgets(line, room + 1, f)` yields: each ends behind its line feed, or after `room`
-- bytes. `line` are the bytes read so far, and `left` is the room that is left.
unfoldable pub chunks : ℕ → ℕ → Bytes → Bytes → List Bytes
chunks room left [] [] = []
chunks room left (x ∷ xs) [] = (x ∷ xs) ∷ []
chunks room left line (c ∷ cs) = elim (c == b'\n' || leb left 1) [
  | true ↦ (line ++ c ∷ []) ∷ chunks room room [] cs
  | false ↦ chunks room (left - 1) (line ++ c ∷ []) cs
]

-- What the program sees of each buffer: a C string.
unfoldable pub fgets_lines : ℕ → Bytes → List Bytes
unfolding chunks until_nul
fgets_lines room content = map until_nul (chunks room room [] content)
