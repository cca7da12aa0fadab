-- ===== src/Tests/Skills.antt =====
-- tools/skills/skills.c
use vajra_ai.Prelude.{◌≡◌, refl, true, false, some, none, [], ◌∷◌, all}
use vajra_ai.CString.{Bytes, codes, equal, strchr}
use vajra_ai.Types.{str_trim}
use vajra_ai.Files.{fgets_lines}
use vajra_ai.Skills.{Skill, Skills, Host, skills_create, skills_scan, cmd_on_path}
use vajra_ai.Skills.Bounds
use vajra_ai.Skills.Bounds.{skills_scan-IsValid}
use vajra_ai.Skills.Prompt.{skills_get_prompt, skills_print_summary, xml_append}
use vajra_ai.Skills.Escape.{xml_read, is_plain, xml_read-xml_append}
use vajra_ai.Skills.Omitted.{skills_get_prompt_omits}

abbrev skill_file : Bytes
skill_file = codes "---\nname: a<b\nalways: yes\nrequires_bins: tar, no\n---\nhi\n"

abbrev host : Host
host = record {
  system_ok = λ c. equal c (codes "command -v tar >/dev/null 2>&1");
  getenv = λ v. none;
  entries = λ d. some (codes "." ∷ codes "x" ∷ []);
  is_dir = λ p. true;
  exists = λ p. true;
  read = λ p. some skill_file;
}

abbrev loaded : Skill
loaded = record {
  name = codes "a<b";
  description = codes "A custom skill";
  path = codes "w/skills/x/SKILL.md";
  slug = codes "x";
  always = true;
  requires_bins = codes "tar" ∷ codes "no" ∷ [];
  requires_env = [];
  available = false;
  content = codes "hi\n";
}

abbrev table : Skills
table = record { workspace = codes "w"; skills_dir = codes "w/skills"; skills = loaded ∷ [] }

create_runs : skills_create host (some (codes "w")) ≡ table
unfolding skills_create equal fgets_lines strchr str_trim cmd_on_path
create_runs = refl

-- The skill stands in the list that is printed, and not in the prompt.
summary_runs :
    skills_print_summary host (some table)
    ≡ codes
        "  Skills   : \u{1b}[2mx[needs:no]\u{1b}[0m\n  \u{1b}[2m(* = always loaded into context)\u{1b}[0m\n"
unfolding skills_print_summary equal
summary_runs = refl

prompt_runs : skills_get_prompt host table ≡ []
unfolding skills_get_prompt
prompt_runs = refl

skills_get_prompt_omits_example :
    skills_get_prompt host table ≡ skills_get_prompt host (record table { skills = [] })
skills_get_prompt_omits_example = skills_get_prompt_omits loaded refl refl host table [] []

skills_scan-IsValid_example : Bounds.IsValid (skills_scan host table)
skills_scan-IsValid_example = skills_scan-IsValid host table

xml_read-xml_append_example :
    (xml_read 0 (xml_append (codes "a&b<c")) ≡ codes "a&b<c")
    × (all is_plain (xml_append (codes "a&b<c")) ≡ true)
xml_read-xml_append_example = xml_read-xml_append (codes "a&b<c")

escape_runs : xml_append (codes "a&b<c") ≡ codes "a&amp;b&lt;c"
unfolding xml_append
escape_runs = refl
