-- ===== src/Skills/Omitted.antt =====
-- skills_get_prompt of tools/skills/skills.c: which skills the prompt speaks of.
use vajra_ai.Prelude.{
  ◌≡◌, refl, ap, ℕ, ◌+◌, Bool, true, false, List, [], ◌∷◌, ◌++◌, arith, if◌then◌else◌,
}
use vajra_ai.CString.{Bytes, codes}
use vajra_ai.Skills.{Skill, Skills, Host}
use vajra_ai.Skills.Prompt.{
  is_active, has_always, active_text, summary_count, summary_text, summaries, skills_get_prompt,
}

module _ (sk : Skill) (always : sk.always ≡ true) (missing : sk.available ≡ false) where
  inactive : is_active sk ≡ false
  inactive = rw (always, missing) refl

  has_always_omits :
      (pre post : List Skill) → has_always (pre ++ sk ∷ post) ≡ has_always (pre ++ post)
  unfolding has_always
  has_always_omits [] post = rw inactive refl
  has_always_omits (p ∷ pre) post =
      ap (λ (b : Bool). if is_active p then true else b) (has_always_omits pre post)

  active_text_omits :
      (pre post : List Skill) → active_text (pre ++ sk ∷ post) ≡ active_text (pre ++ post)
  unfolding active_text
  active_text_omits [] post = rw inactive refl
  active_text_omits (p ∷ pre) post =
      ap
        (λ (t : Bytes).
          (if is_active p
            then codes "### Skill: "
              ++ (p.name ++ (codes "\n\n" ++ (p.content ++ codes "\n\n---\n\n")))
            else [])
          ++ t)
        (active_text_omits pre post)

  summary_count_omits :
      (pre post : List Skill) → summary_count (pre ++ sk ∷ post) ≡ summary_count (pre ++ post)
  unfolding summary_count
  summary_count_omits [] post = rw always (omega arith)
  summary_count_omits (p ∷ pre) post =
      ap (λ (n : ℕ). (if p.always then 0 else 1) + n) (summary_count_omits pre post)

  summaries_omits :
      (host : Host) (workspace : Bytes) (pre post : List Skill)
      → summaries host workspace (pre ++ sk ∷ post) ≡ summaries host workspace (pre ++ post)
  unfolding summaries
  summaries_omits host workspace [] post = rw always refl
  summaries_omits host workspace (p ∷ pre) post =
      ap (λ (t : Bytes). (if p.always then [] else summary_text host workspace p) ++ t)
        (summaries_omits host workspace pre post)

  -- The prompt does not speak of a skill that is marked `always` and is not available: it is the
  -- prompt of the table without that skill.
  pub skills_get_prompt_omits :
      (host : Host) (s : Skills) (pre post : List Skill)
      → skills_get_prompt host (record s { skills = pre ++ sk ∷ post })
        ≡ skills_get_prompt host (record s { skills = pre ++ post })
  unfolding skills_get_prompt
  skills_get_prompt_omits host s pre post =
      rw
        (
          has_always_omits pre post,
          active_text_omits pre post,
          summary_count_omits pre post,
          summaries_omits host s.workspace pre post,
        )
        refl
