-- ===== src/Templates/Keep.antt =====
-- core/templates.c: what the seeding of a workspace leaves at each path.
use mathlib.Core.Path.{subst}
use vajra_ai.Prelude.{
  ap, ◌∙◌, get_elem?, ℕ, zero, suc, false, ◌≢◌, Option-cases, ◌⊎◌, ◌≡◌, refl, inl, inr, Bool,
  Option, none, some, List, [], ◌∷◌, Bool-cases,
}
use vajra_ai.CString.{Bytes, codes, equal}
use vajra_ai.CString.Laws.{equal_refl}
use vajra_ai.Templates.{
  FileTable, path_in, dir_or, seeded_names, content_at, set_content, copy_content, copy_missing,
  copy_if_missing, seed_names, templates_seed,
}

content_at-set_content_other :
    (files : FileTable) (path dst text : Bytes) {c : Bytes}
    → content_at files path ≡ some c
    → content_at files dst ≡ none
    → content_at (set_content files dst text) path ≡ some c
unfolding content_at set_content
content_at-set_content_other [] path dst text h k = cc
content_at-set_content_other ((p, d) ∷ files) path dst text h k = elim (Bool-cases (equal p dst)) [
  | inl e ↦ absurd (let bad = (rw e at k) in cc)
  | inr e ↦ elim (Bool-cases (equal p path)) [
    | inl f ↦ rw (e, f) (rw f at h)
    | inr f ↦ rw (e, f) (content_at-set_content_other files path dst text (rw f at h) (rw e at k))
  ]
]

module _ (can_create : Bytes → Bool) (path : Bytes) {c : Bytes} where
  copy_content-keeps :
      (dst : Bytes) (o : Option Bytes) (files : FileTable)
      → content_at files dst ≡ none
      → content_at files path ≡ some c
      → content_at (copy_content can_create dst o files) path ≡ some c
  unfolding copy_content
  copy_content-keeps dst none files m h = h
  copy_content-keeps dst (some content) files m h = elim (Bool-cases (can_create dst)) [
    | inl e ↦ rw e (content_at-set_content_other files path dst content h m)
    | inr e ↦ rw e h
  ]

  copy_missing-keeps :
      (src dst : Bytes) (o : Option Bytes) (files : FileTable)
      → content_at files dst ≡ o
      → content_at files path ≡ some c
      → content_at (copy_missing can_create src dst o files) path ≡ some c
  unfolding copy_missing
  copy_missing-keeps src dst (some _) files m h = h
  copy_missing-keeps src dst none files m h =
      copy_content-keeps dst (content_at files src) files m h

content_at-set_content_cases :
    (files : FileTable) (path dst text : Bytes) {c : Bytes}
    → content_at (set_content files dst text) path ≡ some c
    → (content_at files path ≡ some c) ⊎ (text ≡ c)
unfolding content_at set_content
content_at-set_content_cases [] path dst text h = elim (Bool-cases (equal dst path)) [
  | inl e ↦ inr (let g = (rw e at h) in cc)
  | inr e ↦ absurd (let g = (rw e at h) in cc)
]
content_at-set_content_cases ((p, d) ∷ files) path dst text h = elim (Bool-cases (equal p dst)) [
  | inl e ↦ elim (Bool-cases (equal p path)) [
    | inl f ↦ inr (let g = (rw (e, f) at h) in cc)
    | inr f ↦ inl (rw f (rw (e, f) at h))
  ]
  | inr e ↦ elim (Bool-cases (equal p path)) [
    | inl f ↦ inl (rw f (rw (e, f) at h))
    | inr f ↦ rw f (content_at-set_content_cases files path dst text (rw (e, f) at h))
  ]
]

content_at-set_content_self :
    (files : FileTable) (path text : Bytes) → content_at (set_content files path text) path ≢ none
unfolding content_at set_content
content_at-set_content_self [] path text h = let g = (rw (equal_refl path) at h) in cc
content_at-set_content_self ((p, d) ∷ files) path text h = elim (Bool-cases (equal p path)) [
  | inl e ↦ let g = (rw (e, e) at h) in cc
  | inr e ↦ content_at-set_content_self files path text (rw (e, e) at h)
]

module _ (can_create : Bytes → Bool) (template_dir workspace_dir : Bytes) where
  -- A path at which nothing can be seeded: for each name that it is the copy of, it cannot be created
  -- or there is no template.
  abbrev pub IsUnseeded : List Bytes → FileTable → Bytes → Type 0
  IsUnseeded names files path =
      (i : ℕ) (name : Bytes)
      → get_elem? names i ≡ some name
      → path_in workspace_dir name ≡ path
      → (can_create path ≡ false) ⊎ (content_at files (path_in template_dir name) ≡ none)

  -- What a path holds before and behind the seeding of some names: the same; or nothing before and then
  -- the text of a template; or nothing, where nothing can be seeded.
  pub data Effect (names : List Bytes) (files : FileTable) (path : Bytes)
      : Option Bytes → Option Bytes → Type 0 where
    kept : {c : Bytes} → Effect names files path (some c) (some c)
    seeded :
        {text : Bytes} (i : ℕ) (name : Bytes)
        → get_elem? names i ≡ some name
        → content_at files (path_in template_dir name) ≡ some text
        → Effect names files path none (some text)
    absent : IsUnseeded names files path → Effect names files path none none

  -- One copy: what each path holds behind it.
  module _ (name : Bytes) (files : FileTable) where
    abbrev src : Bytes
    src = path_in template_dir name

    abbrev dst : Bytes
    dst = path_in workspace_dir name

    abbrev after : FileTable
    after = copy_missing can_create src dst (content_at files dst) files

    after_keeps :
        (path : Bytes) {c : Bytes} → content_at files path ≡ some c → content_at after path ≡ some c
    after_keeps path h =
        copy_missing-keeps can_create path src dst (content_at files dst) files refl h

    -- The converse of keeping.
    after_keeps_gap : (path : Bytes) → content_at after path ≡ none → content_at files path ≡ none
    after_keeps_gap path h = elim (Option-cases (content_at files path)) [
      | inl e ↦ e
      | inr (c, e) ↦ absurd (let g = after_keeps path e in cc)
    ]

    content_cases :
        (o template : Option Bytes) (path c : Bytes)
        → content_at files src ≡ template
        → content_at (copy_missing can_create src dst o files) path ≡ some c
        → (content_at files path ≡ some c) ⊎ (content_at files src ≡ some c)
    unfolding copy_missing copy_content
    content_cases (some d) template path c t h = inl h
    content_cases none none path c t h = inl (rw t at h)
    content_cases none (some text) path c t h = elim (Bool-cases (can_create dst)) [
      | inl e ↦ elim (content_at-set_content_cases files path dst text (rw (t, e) at h)) [
        | inl same ↦ inl same
        | inr copy ↦ inr (t ∙ ap some copy)
      ]
      | inr e ↦ inl (rw (t, e) at h)
    ]

    dst_gap :
        (o template : Option Bytes)
        → content_at files dst ≡ o
        → content_at files src ≡ template
        → content_at (copy_missing can_create src dst o files) dst ≡ none
        → (can_create dst ≡ false) ⊎ (content_at files src ≡ none)
    unfolding copy_missing copy_content
    dst_gap (some d) template m t h = absurd (let g = m in cc)
    dst_gap none none m t h = inr t
    dst_gap none (some text) m t h = elim (Bool-cases (can_create dst)) [
      | inl e ↦ absurd (content_at-set_content_self files dst text (rw (t, e) at h))
      | inr e ↦ inl e
    ]

  effect_nil :
      (files : FileTable) (path : Bytes) (o : Option Bytes)
      → content_at files path ≡ o
      → Effect [] files path o o
  effect_nil files path none e = absent (λ i name g. cc)
  effect_nil files path (some c) e = kept

  -- One copy and the seeding of the names behind it.
  module _ (name : Bytes) (names : List Bytes) (files : FileTable) (path : Bytes) where
    abbrev next : FileTable
    next = after name files

    IsUnseeded-cons :
        content_at next path ≡ none
        → IsUnseeded names next path
        → IsUnseeded (name ∷ names) files path
    IsUnseeded-cons em u zero other g d =
        let same : name ≡ other = cc in
        let is : dst name files ≡ path = ap (path_in workspace_dir) same ∙ d in
        subst
          (λ (p : Bytes).
            (can_create p ≡ false) ⊎ (content_at files (path_in template_dir other) ≡ none))
          is
          (subst
            (λ (n : Bytes).
              (can_create (dst name files) ≡ false)
              ⊎ (content_at files (path_in template_dir n) ≡ none))
            same
            (dst_gap name files (content_at files (dst name files))
              (content_at files (src name files)) refl refl (ap (content_at next) is ∙ em)))
    IsUnseeded-cons em u (suc i) other g d = elim (u i other g d) [
      | inl shut ↦ inl shut
      | inr gone ↦ inr (after_keeps_gap name files (path_in template_dir other) gone)
    ]

    copied :
        (p : Bytes) {text : Bytes}
        → content_at next p ≡ some text
        → (content_at files p ≡ some text) ⊎ (content_at files (src name files) ≡ some text)
    copied p h =
        content_cases name files (content_at files (dst name files))
          (content_at files (src name files)) p _ refl h

    effect_cons :
        (o mid last : Option Bytes)
        → content_at files path ≡ o
        → content_at next path ≡ mid
        → Effect names next path mid last
        → Effect (name ∷ names) files path o last
    effect_cons (some c) (some d) last eo em kept =
        let g = after_keeps name files path eo in
        let same : c ≡ d = cc in
        subst (λ (x : Bytes). Effect (name ∷ names) files path (some c) (some x)) same kept
    effect_cons (some c) none last eo em h = absurd (let g = after_keeps name files path eo in cc)
    effect_cons none (some d) last eo em kept = elim (copied path em) [
      | inl same ↦ absurd (let g = same in cc)
      | inr copy ↦ seeded 0 name refl copy
    ]
    effect_cons none none (some text) eo em (seeded i other g t) =
        elim (copied (path_in template_dir other) t) [
          | inl same ↦ seeded (suc i) other g same
          | inr copy ↦ seeded 0 name refl copy
        ]
    effect_cons none none none eo em (absent u) = absent (IsUnseeded-cons em u)

  seed_names-Effect :
      (names : List Bytes) (files : FileTable) (path : Bytes)
      → Effect names files path
          (content_at files path)
          (content_at (seed_names can_create template_dir workspace_dir names files) path)
  unfolding seed_names copy_if_missing
  seed_names-Effect [] files path = effect_nil files path (content_at files path) refl
  seed_names-Effect (name ∷ names) files path =
      effect_cons name names files path (content_at files path) (content_at (after name files) path)
        _ refl refl (seed_names-Effect names (after name files) path)

module _ (can_create : Bytes → Bool) where
  -- Behind the seeding of a workspace a path holds what it held before; where it held nothing, it may
  -- hold the text of a template; and it holds nothing only where it is no copy that can be created of a
  -- template that is there.
  pub templates_seed-Effect :
      (template_dir workspace_dir : Option Bytes) (files : FileTable) (path : Bytes)
      → Effect can_create
          (dir_or (codes "templates") template_dir)
          (dir_or (codes ".") workspace_dir)
          seeded_names
          files
          path
          (content_at files path)
          (content_at (templates_seed can_create template_dir workspace_dir files) path)
  unfolding templates_seed
  templates_seed-Effect template_dir workspace_dir files path =
      seed_names-Effect can_create (dir_or (codes "templates") template_dir)
        (dir_or (codes ".") workspace_dir) seeded_names files path
