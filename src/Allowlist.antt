-- ===== src/Allowlist.antt =====
-- security/allowlist.c. `fnmatch` of POSIX is a parameter: `fnmatch pattern value` is true if the
-- C call `fnmatch(pattern, value, 0)` returns 0.
pub mod Load
pub mod Check
use vajra_ai.Prelude.{
  ℕ, Bool, true, false, ◌||◌, Option, none, some, List, [], ◌∷◌, ◌++◌, leb, if◌then◌else◌, length,
}
use vajra_ai.CString.{Bytes, codes, strchr}
use vajra_ai.Types.{Result, result_ok, result_err, err_generic, str_starts_with}

abbrev pub max_rules : ℕ
max_rules = 256

pub data AclType : Type 0 where
  acl_command acl_path acl_endpoint : AclType

-- `acl_list_t`: the patterns in use.
pub record AclList : Type 0 where
  pub rules : List Bytes
  pub enabled : Bool

-- The three lists of `allowlist_t`.
pub record Allowlist : Type 0 where
  pub command : AclList
  pub path : AclList
  pub endpoint : AclList

abbrev pub list_of : Allowlist → AclType → AclList
list_of al acl_command = al.command
list_of al acl_path = al.path
list_of al acl_endpoint = al.endpoint

abbrev pub set_list : Allowlist → AclType → AclList → Allowlist
set_list al acl_command l = record al { command = l }
set_list al acl_path l = record al { path = l }
set_list al acl_endpoint l = record al { endpoint = l }

abbrev empty_list : AclList
empty_list = record { rules = []; enabled = false }

unfoldable pub allowlist_create : Allowlist
allowlist_create = record { command = empty_list; path = empty_list; endpoint = empty_list }

abbrev type_name : AclType → Bytes
type_name acl_command = codes "command"
type_name acl_path = codes "path"
type_name acl_endpoint = codes "endpoint"

unfoldable pub allowlist_add : Allowlist → AclType → Bytes → Result × Allowlist
allowlist_add al type pattern =
    let list = list_of al type in
    if leb max_rules (length list.rules)
    then (result_err err_generic (codes "Max rules reached for " ++ type_name type), al)
    else (
      result_ok,
      set_list al type (record { rules = list.rules ++ pattern ∷ []; enabled = true }),
    )

unfoldable pub allowlist_is_enabled : Allowlist → AclType → Bool
allowlist_is_enabled al type = (list_of al type).enabled

unfoldable pub allowlist_set_enabled : Allowlist → AclType → Bool → Allowlist
allowlist_set_enabled al type enabled =
    set_list al type (record { rules = (list_of al type).rules; enabled = enabled })

module _ (fnmatch : Bytes → Bytes → Bool) where
  -- The word in front of the first blank, if there is a blank.
  first_word_matches : Bytes → Option (Bytes × Bytes) → Bool
  first_word_matches pattern none = false
  first_word_matches pattern (some (cmd, _)) = fnmatch pattern cmd

  -- The switch at one pattern.
  unfoldable pub rule_matches : AclType → Bytes → Bytes → Bool
  unfolding first_word_matches
  rule_matches acl_command value pattern =
      fnmatch pattern value || first_word_matches pattern (strchr value b' ')
  rule_matches acl_path value pattern = str_starts_with (some value) (some pattern)
  rule_matches acl_endpoint value pattern = str_starts_with (some value) (some pattern)

  -- The loop over the rules.
  unfoldable pub check_rules : AclType → Bytes → List Bytes → Bool
  unfolding rule_matches
  check_rules type value [] = false
  check_rules type value (pattern ∷ rest) =
      if rule_matches type value pattern then true else check_rules type value rest

  unfoldable pub allowlist_check : Allowlist → AclType → Bytes → Bool
  unfolding check_rules
  allowlist_check al type value =
      let list = list_of al type in if list.enabled then check_rules type value list.rules else true
