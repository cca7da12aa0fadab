-- ===== src/CString.antt =====
-- C strings as the program uses them: a `char *` is the list of its bytes up to the NUL, and a
-- pointer that may be NULL is an `Option`. The functions are those of <string.h>, <ctype.h> and
-- <stdio.h> that the sources call.
pub mod Laws
pub mod Search
pub mod Number
use Prim.Native.Char.{code}
use vajra_ai.Prelude.{
  ℕ, zero, suc, ◌+◌, ◌-◌, String, Bool, true, false, not, ◌&&◌, ◌||◌, Option, none, some, List, [],
  ◌∷◌, ◌++◌, ltb, leb, ◌==◌, if◌then◌else◌, length,
}

abbrev pub Bytes : Type 0
Bytes = List ℕ

-- A string literal of the sources.
abbrev pub codes : String → Bytes
codes String.[] = []
codes (String.◌∷◌ c s) = code c ∷ codes s

-- isspace() in the C locale: blank, \t, \n, \v, \f, \r.
unfoldable pub is_space : ℕ → Bool
is_space c = c == 0x20 || (leb 0x09 c && leb c 0x0d)

-- strcmp(a, b) == 0
unfoldable pub equal : Bytes → Bytes → Bool
equal [] [] = true
equal [] (d ∷ ds) = false
equal (c ∷ cs) [] = false
equal (c ∷ cs) (d ∷ ds) = if c == d then equal cs ds else false

-- strncmp(s, p, strlen(p)) == 0
unfoldable pub has_prefix : Bytes → Bytes → Bool
has_prefix s [] = true
has_prefix [] (y ∷ ys) = false
has_prefix (x ∷ xs) (y ∷ ys) = x == y && has_prefix xs ys

-- A search result, one byte further to the left.
abbrev pub cons_before : ℕ → Option (Bytes × Bytes) → Option (Bytes × Bytes)
cons_before x none = none
cons_before x (some (a, b)) = some (x ∷ a, b)

-- strchr(s, c): what stands before the first `c`, and what stands behind it.
unfoldable pub strchr : Bytes → ℕ → Option (Bytes × Bytes)
strchr [] c = none
strchr (x ∷ xs) c = if x == c then some ([], xs) else cons_before x (strchr xs c)

-- strstr(s, p): what stands before the first occurrence of `p`, and the text from there on.
unfoldable pub strstr : Bytes → Bytes → Option (Bytes × Bytes)
unfolding has_prefix
strstr [] p = if has_prefix [] p then some ([], []) else none
strstr (x ∷ xs) p = if has_prefix (x ∷ xs) p then some ([], x ∷ xs) else cons_before x (strstr xs p)

-- The text up to the first NUL byte: what a C function sees of a buffer.
unfoldable pub until_nul : Bytes → Bytes
until_nul [] = []
until_nul (c ∷ cs) = if c == 0 then [] else c ∷ until_nul cs

-- while (isspace(*s)) s++
unfoldable pub skip_space : Bytes → Bytes
unfolding is_space
skip_space [] = []
skip_space (c ∷ cs) = if is_space c then skip_space cs else c ∷ cs

-- One byte in front of a text whose end is stripped: white space goes if nothing stands behind it.
unfoldable pub strip_cons : ℕ → Bytes → Bytes
unfolding is_space
strip_cons c [] = if is_space c then [] else c ∷ []
strip_cons c (d ∷ ds) = c ∷ d ∷ ds

-- The loop that takes white space from the end of a string.
unfoldable pub strip_end : Bytes → Bytes
unfolding strip_cons
strip_end [] = []
strip_end (c ∷ cs) = strip_cons c (strip_end cs)

-- tolower() in the C locale.
unfoldable pub to_lower : ℕ → ℕ
to_lower c = if leb b'A' c && leb c b'Z' then c + 32 else c

-- strcasecmp(a, b) == 0
unfoldable pub equal_nocase : Bytes → Bytes → Bool
unfolding to_lower
equal_nocase [] [] = true
equal_nocase [] (d ∷ ds) = false
equal_nocase (c ∷ cs) [] = false
equal_nocase (c ∷ cs) (d ∷ ds) = to_lower c == to_lower d && equal_nocase cs ds

-- strcasestr(s, p) is not NULL.
unfoldable pub has_prefix_nocase : Bytes → Bytes → Bool
unfolding to_lower
has_prefix_nocase s [] = true
has_prefix_nocase [] (p ∷ ps) = false
has_prefix_nocase (c ∷ cs) (p ∷ ps) = to_lower c == to_lower p && has_prefix_nocase cs ps

unfoldable pub contains_nocase : Bytes → Bytes → Bool
unfolding has_prefix_nocase
contains_nocase [] p = has_prefix_nocase [] p
contains_nocase (c ∷ cs) p = has_prefix_nocase (c ∷ cs) p || contains_nocase cs p
