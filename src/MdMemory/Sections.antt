-- ===== src/MdMemory/Sections.antt =====
-- memory/md_memory.c: the section that a category means.
use vajra_ai.Prelude.{
  refl, Bool, true, false, ◌||◌, Option, none, some, List, [], ◌∷◌, if◌then◌else◌,
}
use vajra_ai.CString.{Bytes, codes, equal, contains_nocase}
use vajra_ai.MdMemory.{
  user_information, preferences, project_context, important_notes, matching_section,
  keyword_section, canonicalise_section, canonical_sections, or_keyword, recall_heading,
}
use vajra_ai.MdMemory.Store.{IsSection}

module _ (P : Bytes → Type 0) (user : P user_information) (pref : P preferences)
    (project : P project_context) (notes : P important_notes) where
  abbrev Holds : Option Bytes → Type 0
  Holds none = Unit {0}
  Holds (some s) = P s

  if_Holds :
      (b : Bool) (s : Bytes) (rest : Option Bytes)
      → P s
      → Holds rest
      → Holds (if b then some s else rest)
  if_Holds true s rest p r = p
  if_Holds false s rest p r = r

  if_either : (b : Bool) (s t : Bytes) → P s → P t → P (if b then s else t)
  if_either true s t p q = p
  if_either false s t p q = q

  abbrev Each : List Bytes → Type 0
  Each [] = Unit {0}
  Each (s ∷ ss) = P s × Each ss

  matching_section-Holds :
      (category : Bytes) (ss : List Bytes) → Each ss → Holds (matching_section category ss)
  unfolding matching_section
  matching_section-Holds category [] h = tt
  matching_section-Holds category (s ∷ ss) (p, h) =
      if_Holds (contains_nocase s category || contains_nocase category s) s
        (matching_section category ss) p (matching_section-Holds category ss h)

  keyword_section_cases : (category : Bytes) → P (keyword_section category)
  unfolding keyword_section
  keyword_section_cases category =
      let has = λ (word : Bytes). contains_nocase category word in
      let projects = has (codes "project") || has (codes "task") in
      let prefers = has (codes "pref") || has (codes "setting") in
      if_either (has (codes "user") || has (codes "person")) user_information
        (if prefers then preferences else if projects then project_context else important_notes)
        user
        (if_either prefers preferences (if projects then project_context else important_notes) pref
          (if_either projects project_context important_notes project notes))

  or_keyword_cases : (o : Option Bytes) (category : Bytes) → Holds o → P (or_keyword category o)
  or_keyword_cases none category h = keyword_section_cases category
  or_keyword_cases (some s) category h = h

  -- What holds of the four sections holds of the section that a category means.
  pub canonicalise_section_cases : (category : Option Bytes) → P (canonicalise_section category)
  unfolding canonicalise_section
  canonicalise_section_cases none = notes
  canonicalise_section_cases (some category) =
      or_keyword_cases (matching_section category canonical_sections) category
        (matching_section-Holds category canonical_sections (user, (pref, (project, (notes, tt)))))

pub canonicalise_section-IsSection :
    (category : Option Bytes) → IsSection (canonicalise_section category)
unfolding recall_heading equal
canonicalise_section-IsSection =
    canonicalise_section_cases IsSection (record { one_line = refl; no_nul = refl; reads = refl })
      (record { one_line = refl; no_nul = refl; reads = refl })
      (record { one_line = refl; no_nul = refl; reads = refl })
      (record { one_line = refl; no_nul = refl; reads = refl })
