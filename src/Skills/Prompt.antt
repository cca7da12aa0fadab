-- ===== src/Skills/Prompt.antt =====
-- tools/skills/skills.c: the texts that are built from the table of skills.
use vajra_ai.Prelude.{
  ℕ, ◌+◌, Bool, true, false, ◌&&◌, Option, none, some, List, [], ◌∷◌, ◌++◌, ◌==◌, ltb,
  if◌then◌else◌, take,
}
use vajra_ai.CString.{Bytes, codes}
use vajra_ai.Skills.{Skill, Skills, Host, cmd_on_path, env_set}

-- The `switch` of xml_append.
unfoldable pub xml_byte : ℕ → Bytes
xml_byte c =
    if c == b'&'
    then codes "&amp;"
    else if c == b'<'
    then codes "&lt;"
    else if c == b'>'
    then codes "&gt;"
    else if c == b'"'
    then codes "&quot;"
    else c ∷ []

-- What xml_append adds to the buffer.
unfoldable pub xml_append : Bytes → Bytes
unfolding xml_byte
xml_append [] = []
xml_append (c ∷ cs) = xml_byte c ++ xml_append cs

abbrev pub is_active : Skill → Bool
is_active sk = sk.always && sk.available

unfoldable pub has_always : List Skill → Bool
has_always [] = false
has_always (sk ∷ sks) = if is_active sk then true else has_always sks

unfoldable pub active_text : List Skill → Bytes
active_text [] = []
active_text (sk ∷ sks) =
    (if is_active sk
      then codes "### Skill: " ++ (sk.name ++ (codes "\n\n" ++ (sk.content ++ codes "\n\n---\n\n")))
      else [])
    ++ active_text sks

unfoldable pub summary_count : List Skill → ℕ
summary_count [] = 0
summary_count (sk ∷ sks) = (if sk.always then 0 else 1) + summary_count sks

-- The requirements that are not met, behind a kind, with commas from the second entry on.
unfoldable pub missing : Bytes → (Bytes → Bool) → List Bytes → Bool → Bytes × Bool
unfolding xml_append
missing kind met [] first = ([], first)
missing kind met (r ∷ rs) first =
    let skipped = missing kind met rs first in
    let listed : Bytes × Bool =
      let (text, last) = missing kind met rs false in
      ((if first then [] else codes ", ") ++ (kind ++ (xml_append r ++ text)), last) in
    if met r then skipped else listed

unfoldable pub requires_text : Host → Skill → Bytes
unfolding missing cmd_on_path env_set
requires_text host sk =
    let (bins, first) = missing (codes "CLI: ") (cmd_on_path host) sk.requires_bins true in
    codes "    <requires>"
    ++ (bins
        ++ ((missing (codes "ENV: ") (env_set host) sk.requires_env first).0
            ++ codes "</requires>\n"))

unfoldable pub summary_text : Host → Bytes → Skill → Bytes
unfolding xml_append requires_text
summary_text host workspace sk =
    codes "  <skill available=\""
    ++ ((if sk.available then codes "true" else codes "false")
        ++ (codes "\">\n    <name>"
            ++ (xml_append sk.name
                ++ (codes "</name>\n    <description>"
                    ++ (xml_append sk.description
                        ++ (codes "</description>\n    <location>"
                            ++ (workspace
                                ++ (codes "/skills/"
                                    ++ (sk.slug
                                        ++ (codes "/SKILL.md</location>\n"
                                            ++ ((if sk.available then [] else requires_text host sk)
                                                ++ codes "  </skill>\n")))))))))))

unfoldable pub summaries : Host → Bytes → List Skill → Bytes
unfolding summary_text
summaries host workspace [] = []
summaries host workspace (sk ∷ sks) =
    (if sk.always then [] else summary_text host workspace sk) ++ summaries host workspace sks

unfoldable pub skills_get_prompt : Host → Skills → Bytes
unfolding has_always active_text summary_count summaries
skills_get_prompt host s =
    (if has_always s.skills then codes "## Active Skills\n\n" ++ active_text s.skills else [])
    ++ (if ltb 0 (summary_count s.skills)
        then codes "## Skills\n\n"
          ++ (codes "The following skills extend your capabilities. "
              ++ (codes "To use a skill, read its SKILL.md with the read_file tool. "
                  ++ (codes "Skills with available=\"false\" need dependencies installed first.\n\n"
                      ++ (codes "<skills>\n"
                          ++ (summaries host s.workspace s.skills ++ codes "</skills>\n")))))
        else [])

-- `strncat` into `char miss[128]`.
abbrev joined_miss : Bytes → Bytes → Bytes
joined_miss [] req = take 127 req
joined_miss (c ∷ cs) req = take 127 (take 127 (c ∷ cs ++ codes ",") ++ req)

unfoldable pub miss_names : (Bytes → Bool) → List Bytes → Bytes → Bytes
miss_names met [] miss = miss
miss_names met (r ∷ rs) miss = miss_names met rs (if met r then miss else joined_miss miss r)

-- ESC and the parameters of a colour.
abbrev colour : Bytes → Bytes
colour parameters = 0x1b ∷ b'[' ∷ parameters

unfoldable pub summary_entry : Host → Skill → Bytes
unfolding miss_names cmd_on_path env_set
summary_entry host sk =
    if is_active sk
    then colour (codes "35m") ++ (sk.slug ++ (codes "*" ++ colour (codes "0m")))
    else if sk.available
    then colour (codes "32m") ++ (sk.slug ++ colour (codes "0m"))
    else colour (codes "2m")
      ++ (sk.slug
          ++ (codes "[needs:"
              ++ (miss_names (env_set host) sk.requires_env
                    (miss_names (cmd_on_path host) sk.requires_bins [])
                  ++ (codes "]" ++ colour (codes "0m")))))

unfoldable pub summary_entries : Host → List Skill → Bool → Bytes
unfolding summary_entry
summary_entries host [] first = []
summary_entries host (sk ∷ sks) first =
    (if first then [] else codes "  ") ++ (summary_entry host sk ++ summary_entries host sks false)

-- What is printed; the pointer may be NULL.
unfoldable pub skills_print_summary : Host → Option Skills → Bytes
unfolding summary_entries
skills_print_summary host none = codes "  Skills   : (none)\n"
skills_print_summary host (some s) = elim s.skills [
  | [] ↦ codes "  Skills   : (none)\n"
  | sk ∷ sks ↦
      codes "  Skills   : "
      ++ (summary_entries host (sk ∷ sks) true
          ++ (codes "\n  "
              ++ (colour (codes "2m")
                  ++ (codes "(* = always loaded into context)"
                      ++ (colour (codes "0m") ++ codes "\n")))))
]
