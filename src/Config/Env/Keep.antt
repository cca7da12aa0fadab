-- ===== src/Config/Env/Keep.antt =====
-- What `env_load` leaves alone, and what it counts.
use vajra_ai.Prelude.{
  ℕ, ◌+◌, ◌≡◌, refl, ap, ◌∙◌, false, ◌||◌, Option, none, some, List, [], ◌∷◌, ◌++◌, arith, ◌==◌,
  if◌then◌else◌,
}
use vajra_ai.CString.{Bytes, equal, strchr, skip_space, strip_end}
use vajra_ai.Files.{fgets_lines}
use vajra_ai.Config.Env.{
  Environ, getenv, add_unless, setenv, chomp, set_variable, set_pair, without_export, env_line,
  env_lines, env_load,
}

abbrev pub or_else : Option Bytes → Option Bytes → Option Bytes
or_else none b = b
or_else (some a) b = some a

getenv-append :
    (env : Environ) (k v j : Bytes)
    → getenv (env ++ (k, v) ∷ []) j ≡ or_else (getenv env j) (if equal k j then some v else none)
unfolding getenv
getenv-append [] k v j = refl
getenv-append ((i, w) ∷ env) k v j = ground (arith, getenv-append env k v j)

module _ (j w : Bytes) where
  -- The variable `j` is set to `w`.
  abbrev Keeps : Environ × ℕ → Type 0
  Keeps s = getenv s.0 j ≡ some w

  add_unless-Keeps :
      (env : Environ) (k v : Bytes) (o : Option Bytes)
      → getenv env j ≡ some w
      → getenv (add_unless env (k, v) o) j ≡ some w
  add_unless-Keeps env k v none h = getenv-append env k v j ∙ rw h refl
  add_unless-Keeps env k v (some u) h = h

  setenv-Keeps :
      (env : Environ) (k v : Bytes) → getenv env j ≡ some w → getenv (setenv env k v) j ≡ some w
  unfolding setenv
  setenv-Keeps env k v h = add_unless-Keeps env k v (getenv env k) h

  set_variable-Keeps : (s : Environ × ℕ) (k v : Bytes) → Keeps s → Keeps (set_variable s k v)
  unfolding set_variable
  set_variable-Keeps (env, n) [] v h = h
  set_variable-Keeps (env, n) (c ∷ cs) v h = setenv-Keeps env (c ∷ cs) v h

  set_pair-Keeps : (s : Environ × ℕ) (o : Option (Bytes × Bytes)) → Keeps s → Keeps (set_pair s o)
  unfolding set_pair
  set_pair-Keeps s none h = h
  set_pair-Keeps s (some (k, v)) h = set_variable-Keeps s (strip_end k) _ h

  env_line-Keeps : (s : Environ × ℕ) (line : Bytes) → Keeps s → Keeps (env_line s line)
  unfolding env_line
  env_line-Keeps s [] h = h
  env_line-Keeps s (c ∷ cs) h =
      ground (arith, set_pair-Keeps s (strchr (without_export (c ∷ cs)) b'=') h)

  env_lines-Keeps : (lines : List Bytes) (s : Environ × ℕ) → Keeps s → Keeps (env_lines s lines)
  unfolding env_lines
  env_lines-Keeps [] s h = h
  env_lines-Keeps (line ∷ rest) s h =
      env_lines-Keeps rest _ (env_line-Keeps s (skip_space (chomp line)) h)

  -- A variable that is set before keeps its value, whatever the file holds.
  pub env_load-keeps :
      (env : Environ) (content : Option Bytes)
      → getenv env j ≡ some w
      → getenv (env_load env content).0 j ≡ some w
  unfolding env_load
  env_load-keeps env none h = h
  env_load-keeps env (some content) h = env_lines-Keeps (fgets_lines 1023 content) (env, 0) h

setenv-kept :
    (env : Environ) (k v : Bytes) {w : Bytes} → getenv env k ≡ some w → setenv env k v ≡ env
unfolding setenv
setenv-kept env k v h = ap (add_unless env (k, v)) h

-- A line for a variable that is set already changes nothing in the environment, and is counted all
-- the same.
pub env_line_counts_kept :
    (env : Environ) (n c k : ℕ) (cs key val ks w : Bytes)
    → (c == b'#' || c == b';') ≡ false
    → strchr (without_export (c ∷ cs)) b'=' ≡ some (key, val)
    → strip_end key ≡ k ∷ ks
    → getenv env (k ∷ ks) ≡ some w
    → env_line (env, n) (c ∷ cs) ≡ (env, n + 1)
unfolding env_line set_pair set_variable
env_line_counts_kept env n c k cs key val ks w plain found name kept =
    rw plain
      (rw found (rw name (ap (λ (e : Environ). (e, n + 1)) (setenv-kept env (k ∷ ks) _ kept))))
