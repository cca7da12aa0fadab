-- ===== src/Tests/Security.antt =====
-- security/allowlist.c, with texts that match only themselves in the place of `fnmatch`.
use vajra_ai.Prelude.{◌≡◌, ◌||◌, refl, true, false, some, [], ◌∷◌, ◌++◌, arith, if◌then◌else◌}
use vajra_ai.CString.{Bytes, codes, equal, has_prefix, strchr}
use vajra_ai.Types.{str_trim}
use vajra_ai.Allowlist.{
  Allowlist, acl_command, acl_path, acl_endpoint, allowlist_create, allowlist_add, allowlist_check,
  check_rules, rule_matches,
}
use vajra_ai.Allowlist.Load.{tokens, allowlist_load}
use vajra_ai.Allowlist.Check
use vajra_ai.Allowlist.Check.{
  same_type, join_commas, allowlist_check-allowlist_add, allowlist_check-first_word,
  allowlist_add-IsValid, allowlist_load-IsValid, tokens-join_commas,
}
use vajra_ai.Files.{fgets_lines}

abbrev file : Bytes
file = codes "# rules\n[commands]\nallow = ls, git\n[paths]\nallow=/tmp\n"

abbrev loaded : Allowlist
loaded = (allowlist_load allowlist_create (some file)).1

load_runs :
    (loaded.command.rules ≡ codes "ls" ∷ codes "git" ∷ [])
    × (allowlist_check equal loaded acl_command (codes "git status") ≡ true)
    × (allowlist_check equal loaded acl_command (codes "rm x") ≡ false)
    × (allowlist_check equal loaded acl_endpoint (codes "http://x") ≡ true)
unfolding allowlist_load allowlist_create allowlist_add allowlist_check fgets_lines tokens str_trim
    strchr equal has_prefix
load_runs = (refl, refl, refl, refl)

allowlist_check-allowlist_add_example :
    allowlist_check equal
      (allowlist_add allowlist_create acl_path (codes "/tmp")).1
      acl_path
      (codes "/etc")
    ≡ (if same_type acl_path acl_path
        then check_rules equal acl_path (codes "/etc") allowlist_create.path.rules
          || rule_matches equal acl_path (codes "/etc") (codes "/tmp")
        else allowlist_check equal allowlist_create acl_path (codes "/etc"))
allowlist_check-allowlist_add_example =
    allowlist_check-allowlist_add equal allowlist_create acl_path acl_path (codes "/tmp")
      (codes "/etc") (unfold allowlist_add allowlist_create in refl)

abbrev pub only_ls : Allowlist
only_ls = record {
  command = record { rules = codes "ls" ∷ []; enabled = true };
  path = record { rules = []; enabled = false };
  endpoint = record { rules = []; enabled = false };
}

allowlist_check-first_word_example :
    allowlist_check equal only_ls acl_command (codes "ls" ++ b' ' ∷ codes "; rm -rf /") ≡ true
allowlist_check-first_word_example =
    allowlist_check-first_word equal only_ls [] [] (codes "ls") (codes "ls") (codes "; rm -rf /")
      refl (unfold strchr in refl) (unfold equal in refl)

empty-IsValid : Check.IsValid allowlist_create
unfolding allowlist_create
empty-IsValid = omega arith

allowlist_load-IsValid_example : Check.IsValid (allowlist_load allowlist_create (some file)).1
allowlist_load-IsValid_example = allowlist_load-IsValid allowlist_create (some file) empty-IsValid

tokens-join_commas_example :
    tokens [] (join_commas (codes "ls") (codes "git" ∷ [])) ≡ codes "ls" ∷ codes "git" ∷ []
tokens-join_commas_example =
    tokens-join_commas (codes "ls") (codes "git" ∷ []) ((λ e. cc), refl) (((λ e. cc), refl), tt)
