-- ===== src/Skills/Bounds.antt =====
-- tools/skills/skills.c: what is loaded fits the arrays of `skill_t` and of the table.
use vajra_ai.Prelude.{
  ◌≡◌, refl, ap, inl, inr, ℕ, suc, ◌+◌, ◌≤◌, false, ◌&&◌, Option, none, some, List, [], ◌∷◌, ◌++◌,
  arith, ltb, leb, ◌==◌, length, take, map, length-take, length-append, Bool-cases, Option-cases,
  ltb→lt,
}
use vajra_ai.CString.{Bytes, codes, equal, strchr}
use vajra_ai.Types.{str_trim}
use vajra_ai.Files.{fgets_lines}
use vajra_ai.Skills.{
  max_skills, max_requires, Skill, Skills, Host, split_words, tokens_from, Parse, set_field,
  set_pair, fm_or_body, parse_line, parse_lines, fresh_skill, check_requires, parsed_skill,
  parse_skill_file, with_skill, is_hidden, scan_entry, scan_entries, skills_scan, drop_last,
}

abbrev pub Each {ℓ κ} : {A : Type ℓ} → (A → Type κ) → List A → Type κ
Each P [] = Unit
Each P (x ∷ xs) = P x × Each P xs

-- At most eight words of at most 63 bytes.
abbrev pub FewWords : List Bytes → Type 0
FewWords ws = (length ws ≤ max_requires) × Each (λ w. length w ≤ 63) ws

-- Every text of a skill fits its array, with the NUL.
abbrev pub Fits : Skill → Type 0
Fits sk =
    FewWords sk.requires_bins
    × FewWords sk.requires_env
    × (length sk.name ≤ 127)
    × (length sk.description ≤ 255)
    × (length sk.path ≤ 511)
    × (length sk.slug ≤ 63)

pub record IsValid (s : Skills) : Type 0 where
  pub few : length s.skills ≤ max_skills
  pub each : Each Fits s.skills

take_fits : (n : ℕ) (s : Bytes) → length (take n s) ≤ n
take_fits n s = omega (arith, length-take n s)

Each-map-take : (ws : List Bytes) → Each (λ (w : Bytes). length w ≤ 63) (map (take 63) ws)
Each-map-take [] = tt
Each-map-take (w ∷ ws) = (take_fits 63 w, Each-map-take ws)

length-map-take : (ws : List Bytes) → length (map (take 63) ws) ≡ length ws
length-map-take [] = refl
length-map-take (w ∷ ws) = ap suc (length-map-take ws)

FewWords-split_words : (src : Bytes) → FewWords (split_words src max_requires)
unfolding split_words
FewWords-split_words src =
    let words = take max_requires (tokens_from [] (take 511 src)) in
    (
      omega
          (arith, length-map-take words, length-take max_requires (tokens_from [] (take 511 src))),
      Each-map-take words,
    )

Fits-set_field : (key val : Bytes) (sk : Skill) → Fits sk → Fits (set_field key val sk)
unfolding set_field
Fits-set_field key val sk (bins, envs, name, description, path, slug) =
    elim (Bool-cases (equal key (codes "name"))) [
      | inl e ↦ rw e (bins, envs, take_fits 127 val, description, path, slug)
      | inr n1 ↦ elim (Bool-cases (equal key (codes "description"))) [
        | inl e ↦ rw (n1, e) (bins, envs, name, take_fits 255 val, path, slug)
        | inr n2 ↦ elim (Bool-cases (equal key (codes "always"))) [
          | inl e ↦ rw (n1, n2, e) (bins, envs, name, description, path, slug)
          | inr n3 ↦ elim (Bool-cases (equal key (codes "requires_bins"))) [
            | inl e ↦
                rw (n1, n2, n3, e) (FewWords-split_words val, envs, name, description, path, slug)
            | inr n4 ↦ elim (Bool-cases (equal key (codes "requires_env"))) [
              | inl e ↦
                  rw (n1, n2, n3, n4, e)
                    (bins, FewWords-split_words val, name, description, path, slug)
              | inr n5 ↦ rw (n1, n2, n3, n4, n5) (bins, envs, name, description, path, slug)
            ]
          ]
        ]
      ]
    ]

Fits-set_pair : (o : Option (Bytes × Bytes)) (sk : Skill) → Fits sk → Fits (set_pair o sk)
unfolding set_pair
Fits-set_pair none sk h = h
Fits-set_pair (some (key, val)) sk h = Fits-set_field (str_trim key) (str_trim val) sk h

Fits-fm_or_body : (line : Bytes) (s : Parse) → Fits s.skill → Fits (fm_or_body line s).skill
unfolding fm_or_body
Fits-fm_or_body line s h = elim (Bool-cases s.in_fm) [
  | inl e ↦ rw e (Fits-set_pair (strchr line b':') s.skill h)
  | inr e ↦ elim (Bool-cases (leb 2 s.dashes)) [ inl d ↦ rw (e, d) h | inr d ↦ rw (e, d) h ]
]

Fits-parse_line : (line : Bytes) (s : Parse) → Fits s.skill → Fits (parse_line line s).skill
unfolding parse_line
Fits-parse_line line s h = elim (Bool-cases (equal line (codes "---"))) [
  | inl e ↦ elim (Bool-cases (s.dashes == 0)) [
    | inl z ↦ rw (e, z) h
    | inr z ↦ elim (Bool-cases (s.dashes == 1)) [
      | inl o ↦ rw (e, z, o) h
      | inr o ↦ rw (e, z, o) (Fits-fm_or_body line (record s { dashes = s.dashes + 1 }) h)
    ]
  ]
  | inr e ↦ rw e (Fits-fm_or_body line s h)
]

Fits-parse_lines :
    (lines : List Bytes) (s : Parse) → Fits s.skill → Fits (parse_lines lines s).skill
unfolding parse_lines
Fits-parse_lines [] s h = h
Fits-parse_lines (l ∷ ls) s h =
    Fits-parse_lines ls _ (Fits-parse_line (drop_last b'\r' (drop_last b'\n' l)) s h)

Fits-parsed_skill :
    (host : Host) (text : Bytes) (sk : Skill) → Fits sk → Fits (parsed_skill host text sk)
unfolding parsed_skill check_requires
Fits-parsed_skill host text sk h =
    Fits-parse_lines (fgets_lines 1023 text)
      (record { skill = sk; dashes = 0; in_fm = false; body = [] }) h

Fits-fresh_skill :
    (slug path : Bytes) → length slug ≤ 63 → length path ≤ 511 → Fits (fresh_skill slug path)
Fits-fresh_skill slug path h k =
    ((omega arith, tt), (omega arith, tt), take_fits 127 slug, omega arith, k, h)

Each-append : (sks : List Skill) (sk : Skill) → Each Fits sks → Fits sk → Each Fits (sks ++ sk ∷ [])
Each-append [] sk h k = (k, tt)
Each-append (s ∷ sks) sk (h, hs) k = (h, Each-append sks sk hs k)

-- The table with room for one more.
abbrev Grows : List Skill → List Skill → Type 0
Grows sks sks' = (length sks' ≤ length sks + 1) × Each Fits sks'

Grows-with_skill :
    (sks : List Skill) (sk : Skill) → Each Fits sks → Fits sk → Grows sks (sks ++ sk ∷ [])
Grows-with_skill sks sk h k = (omega (arith, length-append sks (sk ∷ [])), Each-append sks sk h k)

Grows-with_read :
    (host : Host) (o : Option Bytes) (sks : List Skill) (sk : Skill)
    → Each Fits sks
    → Fits sk
    → Grows sks (with_skill sks (parse_skill_file host o sk))
unfolding parse_skill_file
Grows-with_read host none sks sk h k = (omega arith, h)
Grows-with_read host (some text) sks sk h k =
    Grows-with_skill sks (parsed_skill host text sk) h (Fits-parsed_skill host text sk k)

Grows-scan_entry :
    (host : Host) (dir name : Bytes) (sks : List Skill)
    → Each Fits sks
    → Grows sks (scan_entry host dir name sks)
unfolding scan_entry
Grows-scan_entry host dir name sks h =
    let skill_dir = take 511 (dir ++ b'/' ∷ name) in
    let skill_path = take 599 (skill_dir ++ codes "/SKILL.md") in
    let fresh =
      Fits-fresh_skill (take 63 name) (take 511 skill_path) (take_fits 63 name)
        (take_fits 511 skill_path) in
    elim (Bool-cases (is_hidden name)) [
      | inl e ↦ rw e (omega arith, h)
      | inr e ↦ elim (Bool-cases (host.is_dir skill_dir && host.exists skill_path)) [
        | inl there ↦ rw (e, there) (Grows-with_read host (host.read skill_path) sks _ h fresh)
        | inr there ↦ rw (e, there) (omega arith, h)
      ]
    ]

Few-scan_entries :
    (host : Host) (dir : Bytes) (names : List Bytes) (sks : List Skill)
    → length sks ≤ max_skills
    → Each Fits sks
    → (length (scan_entries host dir names sks) ≤ max_skills)
      × Each Fits (scan_entries host dir names sks)
unfolding scan_entries
Few-scan_entries host dir [] sks few h = (few, h)
Few-scan_entries host dir (name ∷ names) sks few h =
    elim (Bool-cases (ltb (length sks) max_skills)) [
      | inl e ↦
          let (grown, each) = Grows-scan_entry host dir name sks h in
          rw e (
            Few-scan_entries host dir names (scan_entry host dir name sks)
              (omega (arith, grown, ltb→lt (length sks) max_skills e)) each)
      | inr e ↦ rw e (few, h)
    ]

-- Whatever the directory holds, a scan finds at most 64 skills, each of whose texts fits its array,
-- with at most eight binaries and eight variables that are required.
pub skills_scan-IsValid : (host : Host) (s : Skills) → IsValid (skills_scan host s)
unfolding skills_scan
skills_scan-IsValid host s = elim (Option-cases (host.entries s.skills_dir)) [
  | inl e ↦ rw e (record { few = omega arith; each = tt })
  | inr (names, e) ↦
      let (few, each) = Few-scan_entries host s.skills_dir names [] (omega arith) tt in
      rw e (record { few = few; each = each })
]
