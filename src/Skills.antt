-- ===== src/Skills.antt =====
-- tools/skills/skills.c: the loader of skills, and the part of the system prompt that it builds.
pub mod Bounds
pub mod Prompt
pub mod Escape
pub mod Omitted
use vajra_ai.Prelude.{
  ℕ, zero, suc, ◌+◌, Bool, true, false, not, ◌&&◌, ◌||◌, Option, none, some, List, [], ◌∷◌, ◌++◌,
  ltb, leb, ◌==◌, if◌then◌else◌, length, take, get_elem?, map, all,
}
use vajra_ai.Prelude.Int.{ℤ, pos, negsuc}
use vajra_ai.CString.{Bytes, codes, equal, strchr, until_nul}
use vajra_ai.Types.{Result, result_ok, str_trim}
use vajra_ai.Files.{fgets_lines}

abbrev pub max_skills : ℕ
max_skills = 64

abbrev pub max_requires : ℕ
max_requires = 8

-- `skill_t`; the arrays of requirements and their counts are lists.
pub record Skill : Type 0 where
  pub name : Bytes
  pub description : Bytes
  pub path : Bytes
  pub slug : Bytes
  pub always : Bool
  pub requires_bins : List Bytes
  pub requires_env : List Bytes
  pub available : Bool
  pub content : Bytes

-- `struct skills`
pub record Skills : Type 0 where
  pub workspace : Bytes
  pub skills_dir : Bytes
  pub skills : List Skill

-- What the loader asks the system: does system() return 0 for a command, the environment, the entries
-- of a directory (NULL if it cannot be opened), is a path a directory, is it there, and what it holds
-- if it can be opened.
pub record Host : Type 0 where
  pub system_ok : Bytes → Bool
  pub getenv : Bytes → Option Bytes
  pub entries : Bytes → Option (List Bytes)
  pub is_dir : Bytes → Bool
  pub exists : Bytes → Bool
  pub read : Bytes → Option Bytes

unfoldable pub cmd_on_path : Host → Bytes → Bool
cmd_on_path host [] = true
cmd_on_path host (c ∷ cs) =
    host.system_ok (take 255 (codes "command -v " ++ (c ∷ cs ++ codes " >/dev/null 2>&1")))

abbrev is_value : Option Bytes → Bool
is_value (some (c ∷ cs)) = true
is_value _ = false

unfoldable pub env_set : Host → Bytes → Bool
env_set host var = is_value (host.getenv var)

abbrev is_delimiter : ℕ → Bool
is_delimiter c = c == 0x20 || c == 0x09 || c == b','

abbrev flush : Bytes → List Bytes → List Bytes
flush [] rest = rest
flush (c ∷ cs) rest = (c ∷ cs) ∷ rest

-- The tokens of strtok() behind the bytes of one that has begun.
unfoldable pub tokens_from : Bytes → Bytes → List Bytes
tokens_from word [] = flush word []
tokens_from word (c ∷ cs) =
    let ended = flush word (tokens_from [] cs) in
    let more = tokens_from (word ++ c ∷ []) cs in if is_delimiter c then ended else more

unfoldable pub split_words : Bytes → ℕ → List Bytes
unfolding tokens_from
split_words src max = map (take 63) (take max (tokens_from [] (take 511 src)))

-- The end of a line without one byte `c`.
unfoldable pub drop_last : ℕ → Bytes → Bytes
drop_last c [] = []
drop_last c (x ∷ []) = if x == c then [] else x ∷ []
drop_last c (x ∷ y ∷ ys) = x ∷ drop_last c (y ∷ ys)

-- The variables of the loop in parse_skill_file.
pub record Parse : Type 0 where
  pub skill : Skill
  pub dashes : ℕ
  pub in_fm : Bool
  pub body : Bytes

unfoldable pub is_yes : Bytes → Bool
unfolding equal
is_yes val = equal val (codes "true") || equal val (codes "yes") || equal val (codes "1")

-- The chain of tests on the key.
unfoldable pub set_field : Bytes → Bytes → Skill → Skill
unfolding equal split_words is_yes
set_field key val sk =
    if equal key (codes "name")
    then record sk { name = take 127 val }
    else if equal key (codes "description")
    then record sk { description = take 255 val }
    else if equal key (codes "always")
    then record sk { always = is_yes val }
    else if equal key (codes "requires_bins")
    then record sk { requires_bins = split_words val max_requires }
    else if equal key (codes "requires_env")
    then record sk { requires_env = split_words val max_requires }
    else sk

unfoldable pub set_pair : Option (Bytes × Bytes) → Skill → Skill
unfolding set_field str_trim
set_pair none sk = sk
set_pair (some (key, val)) sk = set_field (str_trim key) (str_trim val) sk

-- A line that is no delimiter of the front matter.
unfoldable pub fm_or_body : Bytes → Parse → Parse
unfolding set_pair strchr
fm_or_body line s =
    if s.in_fm
    then record s { skill = set_pair (strchr line b':') s.skill }
    else if leb 2 s.dashes
    then record s { body = s.body ++ (line ++ b'\n' ∷ []) }
    else s

unfoldable pub parse_line : Bytes → Parse → Parse
unfolding fm_or_body equal
parse_line line s =
    let counted = record s { dashes = s.dashes + 1 } in
    if equal line (codes "---")
    then (if s.dashes == 0
        then record counted { in_fm = true }
        else if s.dashes == 1
        then record counted { in_fm = false }
        else fm_or_body line counted)
    else fm_or_body line s

unfoldable pub parse_lines : List Bytes → Parse → Parse
unfolding parse_line drop_last
parse_lines [] s = s
parse_lines (line ∷ lines) s =
    parse_lines lines (parse_line (drop_last b'\r' (drop_last b'\n' line)) s)

-- The defaults.
abbrev pub fresh_skill : Bytes → Bytes → Skill
fresh_skill slug path = record {
  name = take 127 slug;
  description = codes "A custom skill";
  path = path;
  slug = slug;
  always = false;
  requires_bins = [];
  requires_env = [];
  available = false;
  content = [];
}

unfoldable pub all_lines : List Bytes → Bytes
all_lines [] = []
all_lines (l ∷ ls) = l ++ all_lines ls

unfoldable pub check_requires : Host → Skill → Skill
unfolding cmd_on_path env_set
check_requires host sk = record sk {
  available = all (cmd_on_path host) sk.requires_bins && all (env_set host) sk.requires_env;
}

-- What is read from the file, with or without front matter.
unfoldable pub parsed_skill : Host → Bytes → Skill → Skill
unfolding parse_lines check_requires all_lines fgets_lines
parsed_skill host text sk =
    let lines = fgets_lines 1023 text in
    let s = parse_lines lines (record { skill = sk; dashes = 0; in_fm = false; body = [] }) in
    check_requires host
      (record s.skill { content = if ltb s.dashes 2 then all_lines lines else s.body })

unfoldable pub parse_skill_file : Host → Option Bytes → Skill → Option Skill
unfolding parsed_skill
parse_skill_file host none sk = none
parse_skill_file host (some text) sk = some (parsed_skill host text sk)

abbrev pub with_skill : List Skill → Option Skill → List Skill
with_skill skills none = skills
with_skill skills (some sk) = skills ++ sk ∷ []

abbrev pub is_hidden : Bytes → Bool
is_hidden [] = false
is_hidden (c ∷ cs) = c == b'.'

-- The body of the loop over the directory.
unfoldable pub scan_entry : Host → Bytes → Bytes → List Skill → List Skill
unfolding parse_skill_file
scan_entry host skills_dir name skills =
    let skill_dir = take 511 (skills_dir ++ b'/' ∷ name) in
    let skill_path = take 599 (skill_dir ++ codes "/SKILL.md") in
    if is_hidden name
    then skills
    else if host.is_dir skill_dir && host.exists skill_path
    then with_skill skills (
        parse_skill_file host (host.read skill_path)
          (fresh_skill (take 63 name) (take 511 skill_path)))
    else skills

unfoldable pub scan_entries : Host → Bytes → List Bytes → List Skill → List Skill
unfolding scan_entry
scan_entries host skills_dir [] skills = skills
scan_entries host skills_dir (name ∷ names) skills =
    if ltb (length skills) max_skills
    then scan_entries host skills_dir names (scan_entry host skills_dir name skills)
    else skills

abbrev scan_dir : Host → Bytes → Option (List Bytes) → List Skill
scan_dir host skills_dir none = []
scan_dir host skills_dir (some names) = scan_entries host skills_dir names []

-- The entries from before are freed first.
unfoldable pub skills_scan : Host → Skills → Skills
unfolding scan_entries
skills_scan host s = record s { skills = scan_dir host s.skills_dir (host.entries s.skills_dir) }

abbrev dir_or_here : Option Bytes → Bytes
dir_or_here (some (c ∷ cs)) = c ∷ cs
dir_or_here _ = codes "."

unfoldable pub skills_create : Host → Option Bytes → Skills
unfolding skills_scan
skills_create host workspace_dir =
    let ws = dir_or_here workspace_dir in
    skills_scan host (record {
      workspace = take 511 ws;
      skills_dir = take 511 (ws ++ codes "/skills");
      skills = [];
    })

unfoldable pub skills_reload : Host → Skills → Result × Skills
unfolding skills_scan
skills_reload host s = (result_ok, skills_scan host s)

unfoldable pub skills_count : Option Skills → ℕ
skills_count none = 0
skills_count (some s) = length s.skills

-- The entry at an int, if the pointer and the index are good.
unfoldable pub skill_at : Option Skills → ℤ → Option Skill
skill_at none index = none
skill_at (some s) (negsuc n) = none
skill_at (some s) (pos n) = get_elem? s.skills n

abbrev slug_of : Option Skill → Option Bytes
slug_of none = none
slug_of (some sk) = some sk.slug

abbrev description_of : Option Skill → Option Bytes
description_of none = none
description_of (some sk) = some sk.description

unfoldable pub skills_name : Option Skills → ℤ → Option Bytes
unfolding skill_at
skills_name s index = slug_of (skill_at s index)

unfoldable pub skills_description : Option Skills → ℤ → Option Bytes
unfolding skill_at
skills_description s index = description_of (skill_at s index)
