-- ===== src/Skills/Escape.antt =====
-- xml_append of tools/skills/skills.c: nothing of a text is lost.
use vajra_ai.Prelude.{
  ◌≡◌, refl, ap, ◌∙◌, inl, inr, ℕ, zero, suc, Bool, true, false, not, ◌&&◌, [], ◌∷◌, ◌++◌, ◌==◌,
  all, if◌then◌else◌, Bool-cases, ==_iff,
}
use vajra_ai.CString.{Bytes, codes, has_prefix}
use vajra_ai.Skills.Prompt.{xml_byte, xml_append}

-- The byte that an escaped text begins with, and how many bytes behind the first stand for it.
unfoldable xml_first : ℕ → Bytes → ℕ × ℕ
unfolding has_prefix
xml_first c cs =
    if not (c == b'&')
    then (c, 0)
    else if has_prefix cs (codes "amp;")
    then (b'&', 4)
    else if has_prefix cs (codes "lt;")
    then (b'<', 3)
    else if has_prefix cs (codes "gt;")
    then (b'>', 3)
    else if has_prefix cs (codes "quot;")
    then (b'"', 5)
    else (c, 0)

-- A reader of escaped text, independent of the writer; it skips so many bytes first.
pub xml_read : ℕ → Bytes → Bytes
xml_read k [] = []
xml_read (suc k) (c ∷ cs) = xml_read k cs
xml_read zero (c ∷ cs) = let (byte, behind) = xml_first c cs in byte ∷ xml_read behind cs

-- No byte of markup.
abbrev pub is_plain : ℕ → Bool
is_plain c = not (c == b'<') && (not (c == b'>') && not (c == b'"'))

-- What holds at the five cases of a byte holds at every byte.
xml_byte-cases :
    (P : ℕ → Bytes → Type 0)
    → P b'&' (codes "&amp;")
    → P b'<' (codes "&lt;")
    → P b'>' (codes "&gt;")
    → P b'"' (codes "&quot;")
    → ((c : ℕ) → (c == b'&') ≡ false → is_plain c ≡ true → P c (c ∷ []))
    → (c : ℕ) → P c (xml_byte c)
unfolding xml_byte
xml_byte-cases P amp lt gt quot other c = elim (Bool-cases (c == b'&')) [
  | inl e ↦ rw (e, (==_iff c b'&').0 e) amp
  | inr n1 ↦ elim (Bool-cases (c == b'<')) [
    | inl e ↦ rw (e, (==_iff c b'<').0 e) lt
    | inr n2 ↦ elim (Bool-cases (c == b'>')) [
      | inl e ↦ rw (e, (==_iff c b'>').0 e) gt
      | inr n3 ↦ elim (Bool-cases (c == b'"')) [
        | inl e ↦ rw (e, (==_iff c b'"').0 e) quot
        | inr n4 ↦ rw (n1, n2, n3, n4) (other c n1 (rw (n2, n3, n4) refl))
      ]
    ]
  ]
]

xml_read-xml_byte : (r : Bytes) (c : ℕ) → xml_read 0 (xml_byte c ++ r) ≡ c ∷ xml_read 0 r
unfolding xml_read xml_first
xml_read-xml_byte r =
    xml_byte-cases (λ c bytes. xml_read 0 (bytes ++ r) ≡ c ∷ xml_read 0 r) refl refl refl refl
      (λ c e plain. rw e refl)

plain_byte : (r : Bytes) → all is_plain r ≡ true → (c : ℕ) → all is_plain (xml_byte c ++ r) ≡ true
plain_byte r h =
    xml_byte-cases (λ c bytes. all is_plain (bytes ++ r) ≡ true) h h h h
      (λ c e plain. rw (plain, h) refl)

-- An escaped text holds no angle bracket and no quotation mark, and reading it gives the text back.
pub xml_read-xml_append :
    (s : Bytes) → (xml_read 0 (xml_append s) ≡ s) × (all is_plain (xml_append s) ≡ true)
unfolding xml_append xml_read
xml_read-xml_append [] = (refl, refl)
xml_read-xml_append (c ∷ s) =
    let (back, plain) = xml_read-xml_append s in
    (xml_read-xml_byte (xml_append s) c ∙ ap (◌∷◌ c) back, plain_byte (xml_append s) plain c)
