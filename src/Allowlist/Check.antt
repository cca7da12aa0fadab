-- ===== src/Allowlist/Check.antt =====
-- What `allowlist_add`, `allowlist_load` and `allowlist_check` promise each other.
use vajra_ai.Prelude.{
  ℕ, ◌≤◌, ◌≡◌, ◌≢◌, inl, inr, refl, sym, ap, ◌∙◌, Bool, true, false, ◌||◌, not, Option, none, some,
  List, [], ◌∷◌, ◌++◌, arith, ◌==◌, leb, if◌then◌else◌, length, all, length-append, append-nil,
  append_assoc, Bool-cases,
}
use vajra_ai.CString.{Bytes, strchr}
use vajra_ai.Files.{fgets_lines}
use vajra_ai.Types.{Result, result_ok, str_trim}
use vajra_ai.Allowlist.{
  max_rules, AclType, acl_command, acl_path, acl_endpoint, AclList, Allowlist, list_of, set_list,
  allowlist_add, rule_matches, check_rules, allowlist_check,
}
use vajra_ai.Allowlist.Load.{
  tokens, add_token, add_tokens, add_values, load_entry, load_line, load_lines, allowlist_load,
}

abbrev pub same_type : AclType → AclType → Bool
same_type acl_command acl_command = true
same_type acl_path acl_path = true
same_type acl_endpoint acl_endpoint = true
same_type _ _ = false

list_of-set_list :
    (al : Allowlist) (t u : AclType) (l : AclList)
    → list_of (set_list al t l) u ≡ (if same_type t u then l else list_of al u)
list_of-set_list al t u l = ground arith

module _ (fnmatch : Bytes → Bytes → Bool) where
  check_rules-append :
      (type : AclType) (value pattern : Bytes) (rules : List Bytes)
      → check_rules fnmatch type value (rules ++ pattern ∷ [])
        ≡ (check_rules fnmatch type value rules || rule_matches fnmatch type value pattern)
  unfolding check_rules
  check_rules-append type value pattern [] = ground arith
  check_rules-append type value pattern (r ∷ rules) =
      ground (arith, check_rules-append type value pattern rules)

  abbrev extended : AclList → Bytes → AclList
  extended l pattern = record { rules = l.rules ++ pattern ∷ []; enabled = true }

  added :
      (al : Allowlist) (t u : AclType) (pattern value : Bytes)
      → allowlist_check fnmatch (set_list al t (extended (list_of al t) pattern)) u value ≡ (
          if same_type t u
          then check_rules fnmatch u value (list_of al u).rules
            || rule_matches fnmatch u value pattern
          else allowlist_check fnmatch al u value)
  unfolding allowlist_check
  added al acl_command acl_command p v = check_rules-append acl_command v p al.command.rules
  added al acl_path acl_path p v = check_rules-append acl_path v p al.path.rules
  added al acl_endpoint acl_endpoint p v = check_rules-append acl_endpoint v p al.endpoint.rules
  added al _ _ p v = refl

  or-true : (b : Bool) → (b || true) ≡ true
  or-true b = ground arith

  check_rules-hit :
      (type : AclType) (value pattern : Bytes) (before behind : List Bytes)
      → rule_matches fnmatch type value pattern ≡ true
      → check_rules fnmatch type value (before ++ pattern ∷ behind) ≡ true
  unfolding check_rules
  check_rules-hit type value pattern [] behind h = rw h refl
  check_rules-hit type value pattern (r ∷ before) behind h =
      ground (arith, check_rules-hit type value pattern before behind h)

  -- After a rule is added with success, a value of its kind is allowed exactly if an earlier rule
  -- or the new one matches it, also where the list was not enabled before and so allowed
  -- everything. What is allowed of the other kinds does not change.
  pub allowlist_check-allowlist_add :
      (al : Allowlist) (t u : AclType) (pattern value : Bytes)
      → (allowlist_add al t pattern).0 ≡ result_ok
      → allowlist_check fnmatch (allowlist_add al t pattern).1 u value ≡ (
          if same_type t u
          then check_rules fnmatch u value (list_of al u).rules
            || rule_matches fnmatch u value pattern
          else allowlist_check fnmatch al u value)
  unfolding allowlist_add allowlist_check
  allowlist_check-allowlist_add al t u pattern value good =
      elim (Bool-cases (leb max_rules (length (list_of al t).rules))) [
        | inl full ↦ cc (ap (λ (r : Result). r.status) (rw full at good))
        | inr room ↦ rw room (added al t u pattern value)
      ]

  -- With the list of commands enabled, a command line is allowed by its first word alone: whatever
  -- follows the first blank, further commands of the shell included, is not looked at.
  pub allowlist_check-first_word :
      (al : Allowlist) (before behind : List Bytes) (pattern cmd rest : Bytes)
      → al.command.rules ≡ before ++ pattern ∷ behind
      → strchr (cmd ++ b' ' ∷ rest) b' ' ≡ some (cmd, rest)
      → fnmatch pattern cmd ≡ true
      → allowlist_check fnmatch al acl_command (cmd ++ b' ' ∷ rest) ≡ true
  unfolding allowlist_check
  allowlist_check-first_word al before behind pattern cmd rest e first match =
      let hit : rule_matches fnmatch acl_command (cmd ++ b' ' ∷ rest) pattern ≡ true =
        unfold rule_matches in
        (rw first (rw match (or-true (fnmatch pattern (cmd ++ b' ' ∷ rest))))) in
      rw e (
        rw (check_rules-hit acl_command (cmd ++ b' ' ∷ rest) pattern before behind hit)
          (ground arith))

-- Every list stays within its array.
pub record IsValid (al : Allowlist) : Type 0 where
  pub command : length al.command.rules ≤ max_rules
  pub path : length al.path.rules ≤ max_rules
  pub endpoint : length al.endpoint.rules ≤ max_rules

pub allowlist_add-IsValid :
    (al : Allowlist) (t : AclType) (pattern : Bytes)
    → IsValid al
    → IsValid (allowlist_add al t pattern).1
unfolding allowlist_add
allowlist_add-IsValid al acl_command p v = ground (arith, length-append al.command.rules (p ∷ []))
allowlist_add-IsValid al acl_path p v = ground (arith, length-append al.path.rules (p ∷ []))
allowlist_add-IsValid al acl_endpoint p v = ground (arith, length-append al.endpoint.rules (p ∷ []))

add_token-IsValid :
    (al : Allowlist) (t : AclType) (s : Bytes) → IsValid al → IsValid (add_token al t s)
unfolding add_token
add_token-IsValid al t [] v = v
add_token-IsValid al t (c ∷ cs) v = allowlist_add-IsValid al t (c ∷ cs) v

add_tokens-IsValid :
    (ts : List Bytes) (al : Allowlist) (t : AclType) → IsValid al → IsValid (add_tokens al t ts)
unfolding add_tokens
add_tokens-IsValid [] al t v = v
add_tokens-IsValid (s ∷ ts) al t v =
    add_tokens-IsValid ts _ t (add_token-IsValid al t (str_trim s) v)

add_values-IsValid :
    (al : Allowlist) (t : AclType) (o : Option (Bytes × Bytes))
    → IsValid al
    → IsValid (add_values al t o)
unfolding add_values
add_values-IsValid al t none v = v
add_values-IsValid al t (some (_, vals)) v = add_tokens-IsValid (tokens [] (str_trim vals)) al t v

load_entry-IsValid :
    (al : Allowlist) (t : AclType) (s : Bytes) → IsValid al → IsValid (load_entry al t s).0
unfolding load_entry
load_entry-IsValid al t s v = ground (arith, add_values-IsValid al t (strchr s b'=') v)

load_line-IsValid :
    (al : Allowlist) (t : AclType) (s : Bytes) → IsValid al → IsValid (load_line al t s).0
unfolding load_line
load_line-IsValid al t [] v = v
load_line-IsValid al t (c ∷ cs) v = ground (arith, load_entry-IsValid al t (c ∷ cs) v)

load_lines-IsValid :
    (ls : List Bytes) (al : Allowlist) (t : AclType) → IsValid al → IsValid (load_lines al t ls)
unfolding load_lines
load_lines-IsValid [] al t v = v
load_lines-IsValid (l ∷ ls) al t v =
    load_lines-IsValid ls _ _ (load_line-IsValid al t (str_trim l) v)

-- Loading any file, whatever it holds, keeps every list within its 256 rules.
pub allowlist_load-IsValid :
    (al : Allowlist) (content : Option Bytes) → IsValid al → IsValid (allowlist_load al content).1
unfolding allowlist_load
allowlist_load-IsValid al none v = v
allowlist_load-IsValid al (some content) v =
    load_lines-IsValid (fgets_lines 1023 content) al acl_command v

-- Texts joined by commas.
abbrev pub join_commas : Bytes → List Bytes → Bytes
join_commas x [] = x
join_commas x (y ∷ ys) = x ++ (b',' ∷ join_commas y ys)

-- A text that has no comma, and is not empty.
abbrev pub IsToken : Bytes → Type 0
IsToken x = (x ≢ []) × (all (λ c. not (c == b',')) x ≡ true)

abbrev pub AllTokens : List Bytes → Type 0
AllTokens [] = Unit {0}
AllTokens (x ∷ xs) = IsToken x × AllTokens xs

tokens-plain :
    (c : ℕ) (cs : Bytes) (a : ℕ) (run : Bytes)
    → (c == b',') ≡ false
    → tokens (a ∷ run) (c ∷ cs) ≡ tokens (a ∷ (run ++ c ∷ [])) cs
unfolding tokens
tokens-plain c cs a run e = rw (e, tokens) refl

tokens-start : (c : ℕ) (cs : Bytes) → (c == b',') ≡ false → tokens [] (c ∷ cs) ≡ tokens (c ∷ []) cs
unfolding tokens
tokens-start c cs e = rw (e, tokens) refl

head_plain : (c : ℕ) (x : Bytes) → all (λ c. not (c == b',')) (c ∷ x) ≡ true → (c == b',') ≡ false
head_plain c x h = ground arith

tail_plain :
    (c : ℕ) (x : Bytes)
    → all (λ c. not (c == b',')) (c ∷ x) ≡ true
    → all (λ c. not (c == b',')) x ≡ true
tail_plain c x h = ground arith

tokens-run :
    (x cs : Bytes) (a : ℕ) (run : Bytes)
    → all (λ c. not (c == b',')) x ≡ true
    → tokens (a ∷ run) (x ++ cs) ≡ tokens (a ∷ (run ++ x)) cs
tokens-run [] cs a run h = rw append-nil refl
tokens-run (c ∷ x) cs a run h =
    tokens-plain c (x ++ cs) a run (head_plain c x h)
    ∙ tokens-run x cs a (run ++ c ∷ []) (tail_plain c x h)
    ∙ ap (λ (r : Bytes). tokens (a ∷ r) cs) (append_assoc run (c ∷ []) x)

-- `strtok` takes a list of texts that were joined by commas apart again.
pub tokens-join_commas :
    (x : Bytes) (xs : List Bytes) → IsToken x → AllTokens xs → tokens [] (join_commas x xs) ≡ x ∷ xs
unfolding tokens
tokens-join_commas [] xs h hs = absurd (h.0 refl)
tokens-join_commas (c ∷ x) [] h hs =
    ap (tokens []) (sym (append-nil (c ∷ x)))
    ∙ tokens-start c (x ++ []) (head_plain c x h.1)
    ∙ tokens-run x [] c [] (tail_plain c x h.1)
tokens-join_commas (c ∷ x) (y ∷ ys) h hs =
    tokens-start c (x ++ (b',' ∷ join_commas y ys)) (head_plain c x h.1)
    ∙ tokens-run x (b',' ∷ join_commas y ys) c [] (tail_plain c x h.1)
    ∙ ap (λ (r : List Bytes). (c ∷ x) ∷ r) (tokens-join_commas y ys hs.0 hs.1)
