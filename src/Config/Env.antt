-- ===== src/Config/Env.antt =====
-- `env_load` of core/config.c, and the environment that it writes to.
pub mod Keep
use vajra_ai.Prelude.{
  ℕ, zero, suc, ◌+◌, ◌-◌, Bool, true, false, ◌&&◌, ◌||◌, Option, none, some, List, [], ◌∷◌, ◌++◌,
  leb, ◌==◌, if◌then◌else◌, length, drop,
}
use vajra_ai.CString.{Bytes, codes, equal, has_prefix, strchr, skip_space, strip_end}
use vajra_ai.Files.{fgets_lines}

-- The environment of the process.
abbrev pub Environ : Type 0
Environ = List (Bytes × Bytes)

unfoldable pub getenv : Environ → Bytes → Option Bytes
getenv [] key = none
getenv ((k, v) ∷ env) key = if equal k key then some v else getenv env key

abbrev pub add_unless : Environ → Bytes × Bytes → Option Bytes → Environ
add_unless env entry none = env ++ entry ∷ []
add_unless env entry (some _) = env

-- setenv(key, val, 0): a variable that is set stays, and the call succeeds. The key is not empty
-- and holds no `=` where the program calls it.
unfoldable pub setenv : Environ → Bytes → Bytes → Environ
unfolding getenv
setenv env key val = add_unless env (key, val) (getenv env key)

-- `while (len > 0 && (line[len-1] == '\n' || line[len-1] == '\r')) line[--len] = '\0'`
chomp_cons : ℕ → Bytes → Bytes
chomp_cons c [] = if c == b'\n' || c == b'\r' then [] else c ∷ []
chomp_cons c (d ∷ ds) = c ∷ d ∷ ds

unfoldable pub chomp : Bytes → Bytes
unfolding chomp_cons
chomp [] = []
chomp (c ∷ cs) = chomp_cons c (chomp cs)

-- The text without its last byte, and that byte.
abbrev unsnoc_cons : ℕ → Option (Bytes × ℕ) → Option (Bytes × ℕ)
unsnoc_cons c none = some ([], c)
unsnoc_cons c (some (front, l)) = some (c ∷ front, l)

unfoldable pub unsnoc : Bytes → Option (Bytes × ℕ)
unsnoc [] = none
unsnoc (c ∷ cs) = unsnoc_cons c (unsnoc cs)

-- A value of at least two bytes between two equal quotes loses them.
unquote_from : Bytes → ℕ → Option (Bytes × ℕ) → Bytes
unquote_from val c none = val
unquote_from val c (some (inner, l)) =
    if (c == b'"' && l == b'"') || (c == 0x27 && l == 0x27) then inner else val

unfoldable pub unquote : Bytes → Bytes
unfolding unsnoc unquote_from
unquote [] = []
unquote (c ∷ cs) = unquote_from (c ∷ cs) c (unsnoc cs)

-- One variable: its key is trimmed at the end, and a line without a key is skipped. The count grows
-- with every successful setenv.
unfoldable pub set_variable : Environ × ℕ → Bytes → Bytes → Environ × ℕ
unfolding setenv
set_variable (env, count) [] val = (env, count)
set_variable (env, count) (c ∷ cs) val = (setenv env (c ∷ cs) val, count + 1)

unfoldable pub set_pair : Environ × ℕ → Option (Bytes × Bytes) → Environ × ℕ
unfolding set_variable unquote
set_pair s none = s
set_pair s (some (key, val)) = set_variable s (strip_end key) (unquote (skip_space val))

abbrev pub without_export : Bytes → Bytes
without_export s = skip_space (if has_prefix s (codes "export ") then drop 7 s else s)

-- The body of the loop, on a line without its end and the white space in front.
unfoldable pub env_line : Environ × ℕ → Bytes → Environ × ℕ
unfolding set_pair
env_line s [] = s
env_line s (c ∷ cs) =
    if c == b'#' || c == b';' then s else set_pair s (strchr (without_export (c ∷ cs)) b'=')

unfoldable pub env_lines : Environ × ℕ → List Bytes → Environ × ℕ
unfolding env_line chomp
env_lines s [] = s
env_lines s (line ∷ rest) = env_lines (env_line s (skip_space (chomp line))) rest

-- The file's content, or `none` if it cannot be opened; the environment and the count.
unfoldable pub env_load : Environ → Option Bytes → Environ × ℕ
unfolding env_lines
env_load env none = (env, 0)
env_load env (some content) = env_lines (env, 0) (fgets_lines 1023 content)
