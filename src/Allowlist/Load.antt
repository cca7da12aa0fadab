-- ===== src/Allowlist/Load.antt =====
-- `allowlist_load` of security/allowlist.c.
use vajra_ai.Prelude.{true, false, Option, none, some, List, [], ◌∷◌, ◌++◌, ◌==◌, if◌then◌else◌}
use vajra_ai.CString.{Bytes, codes, equal, has_prefix, strchr}
use vajra_ai.Files.{fgets_lines}
use vajra_ai.Types.{Result, result_ok, str_trim}
use vajra_ai.Allowlist.{AclType, acl_command, acl_path, acl_endpoint, Allowlist, allowlist_add}

-- The tokens of strtok(s, ","): the runs between commas that are not empty. `token` are the bytes
-- read since the last comma.
unfoldable pub tokens : Bytes → Bytes → List Bytes
tokens [] [] = []
tokens (x ∷ xs) [] = (x ∷ xs) ∷ []
tokens [] (c ∷ cs) = tokens (if c == b',' then [] else c ∷ []) cs
tokens (x ∷ xs) (c ∷ cs) = elim (c == b',') [
  | true ↦ (x ∷ xs) ∷ tokens [] cs
  | false ↦ tokens (x ∷ (xs ++ c ∷ [])) cs
]

unfoldable pub add_token : Allowlist → AclType → Bytes → Allowlist
add_token al type [] = al
add_token al type (c ∷ cs) = (allowlist_add al type (c ∷ cs)).1

unfoldable pub add_tokens : Allowlist → AclType → List Bytes → Allowlist
unfolding add_token
add_tokens al type [] = al
add_tokens al type (token ∷ rest) = add_tokens (add_token al type (str_trim token)) type rest

-- An "allow = a, b" line, once its white space is trimmed; other lines are ignored.
unfoldable pub add_values : Allowlist → AclType → Option (Bytes × Bytes) → Allowlist
unfolding tokens add_tokens
add_values al type none = al
add_values al type (some (_, vals)) = add_tokens al type (tokens [] (str_trim vals))

unfoldable pub load_entry : Allowlist → AclType → Bytes → Allowlist × AclType
unfolding add_values
load_entry al type s =
    if equal s (codes "[commands]")
    then (al, acl_command)
    else if equal s (codes "[paths]")
    then (al, acl_path)
    else if equal s (codes "[endpoints]")
    then (al, acl_endpoint)
    else if has_prefix s (codes "allow")
    then (add_values al type (strchr s b'='), type)
    else (al, type)

-- The body of the loop, on the trimmed line.
unfoldable pub load_line : Allowlist → AclType → Bytes → Allowlist × AclType
unfolding load_entry
load_line al type [] = (al, type)
load_line al type (c ∷ cs) = if c == b'#' then (al, type) else load_entry al type (c ∷ cs)

unfoldable pub load_lines : Allowlist → AclType → List Bytes → Allowlist
unfolding load_line
load_lines al type [] = al
load_lines al type (line ∷ rest) =
    let (al', type') = load_line al type (str_trim line) in load_lines al' type' rest

-- The file's content, or `none` if it cannot be opened, in which case nothing is changed.
unfoldable pub allowlist_load : Allowlist → Option Bytes → Result × Allowlist
unfolding load_lines
allowlist_load al none = (result_ok, al)
allowlist_load al (some content) = (result_ok, load_lines al acl_command (fgets_lines 1023 content))
