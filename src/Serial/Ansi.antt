-- ===== src/Serial/Ansi.antt =====
-- tools/serial/serial_tool.c, `strip_ansi`: the loop as a function on the place in an escape sequence
-- where it stands.
use vajra_ai.Prelude.{
  ◌≡◌, refl, sym, ap, ◌∙◌, inl, inr, ℕ, ◌≤◌, Bool, true, false, not, ◌&&◌, ◌||◌, leb, [], ◌∷◌, ◌++◌,
  arith, ltb, ◌==◌, if◌then◌else◌, length, all, all-append, Bool-cases, length-append, append_assoc,
}
use vajra_ai.CString.{Bytes}

-- In the text, behind the escape byte, in a CSI sequence, or before the byte of a character set.
pub data Place : Type 0 where
  text escaped csi charset : Place

unfoldable pub next_place : Place → ℕ → Place
next_place text c = if c == 0x1b then escaped else text
next_place escaped c = if c == b'[' then csi else if c == b'(' || c == b')' then charset else text
next_place csi c = if ltb c 0x40 || ltb 0x7e c then csi else text
next_place charset c = text

unfoldable pub kept : Place → ℕ → Bytes
kept text c = if c == 0x1b then [] else c ∷ []
kept _ c = []

unfoldable pub strip_from : Place → Bytes → Bytes
unfolding kept next_place
strip_from p [] = []
strip_from p (c ∷ cs) = kept p c ++ strip_from (next_place p c) cs

unfoldable pub strip_ansi : Bytes → Bytes
unfolding strip_from
strip_ansi s = strip_from text s

-- Where the loop stands behind a text.
unfoldable pub place_after : Place → Bytes → Place
unfolding next_place
place_after p [] = p
place_after p (c ∷ cs) = place_after (next_place p c) cs

abbrev pub is_plain : ℕ → Bool
is_plain c = not (c == 0x1b)

strip_from-append :
    (p : Place) (s rest : Bytes)
    → strip_from p (s ++ rest) ≡ strip_from p s ++ strip_from (place_after p s) rest
unfolding strip_from place_after
strip_from-append p [] rest = refl
strip_from-append p (c ∷ cs) rest =
    ap (◌++◌ (kept p c)) (strip_from-append (next_place p c) cs rest)
    ∙ sym (
        append_assoc (kept p c) (strip_from (next_place p c) cs)
          (strip_from (place_after (next_place p c) cs) rest))

-- A piece that ends in the text, and not in a sequence, can be stripped by itself.
pub strip_ansi-append :
    (s rest : Bytes)
    → place_after text s ≡ text
    → strip_ansi (s ++ rest) ≡ strip_ansi s ++ strip_ansi rest
unfolding strip_ansi
strip_ansi-append s rest h =
    strip_from-append text s rest ∙ ap (λ (p : Place). strip_from text s ++ strip_from p rest) h

-- What is left: no escape byte, and no more than there was.
pub record IsStripped (s out : Bytes) : Type 0 where
  pub plain : all is_plain out ≡ true
  pub shorter : length out ≤ length s

kept-IsStripped : (p : Place) (c : ℕ) → IsStripped (c ∷ []) (kept p c)
unfolding kept
kept-IsStripped text c = elim (Bool-cases (c == 0x1b)) [
  | inl e ↦ rw e (record { plain = refl; shorter = omega arith })
  | inr e ↦ rw e (record { plain = rw e refl; shorter = omega arith })
]
kept-IsStripped escaped c = record { plain = refl; shorter = omega arith }
kept-IsStripped csi c = record { plain = refl; shorter = omega arith }
kept-IsStripped charset c = record { plain = refl; shorter = omega arith }

IsStripped-append :
    {s t a b : Bytes} → IsStripped s a → IsStripped t b → IsStripped (s ++ t) (a ++ b)
IsStripped-append {s} {t} {a} {b} h k = record {
  plain = ground (arith, all-append is_plain a b, h.plain, k.plain);
  shorter = omega (arith, length-append s t, length-append a b, h.shorter, k.shorter);
}

strip_from-IsStripped : (p : Place) (s : Bytes) → IsStripped s (strip_from p s)
unfolding strip_from
strip_from-IsStripped p [] = record { plain = refl; shorter = omega arith }
strip_from-IsStripped p (c ∷ cs) =
    IsStripped-append (kept-IsStripped p c) (strip_from-IsStripped (next_place p c) cs)

strip_from-plain : (s : Bytes) → all is_plain s ≡ true → strip_from text s ≡ s
unfolding strip_from kept next_place
strip_from-plain [] h = refl
strip_from-plain (c ∷ cs) h = elim (Bool-cases (c == 0x1b)) [
  | inl e ↦ absurd (ground (arith, e, h))
  | inr e ↦ rw e (ap (◌∷◌ c) (strip_from-plain cs (ground (arith, e, h))))
]

-- The end of a CSI sequence: any bytes but the final ones, 0x40 to 0x7e, and one of those, with what
-- stands behind it; or the text is over before.
abbrev pub is_final : ℕ → Bool
is_final c = leb 0x40 c && leb c 0x7e

pub data CsiEnd : Bytes → Bytes → Type 0 where
  cut_short : CsiEnd [] []
  parameter : {c : ℕ} {s rest : Bytes} → is_final c ≡ false → CsiEnd s rest → CsiEnd (c ∷ s) rest
  final : {c : ℕ} {s : Bytes} → is_final c ≡ true → CsiEnd (c ∷ s) s

abbrev pub is_bracket : ℕ → Bool
is_bracket c = c == b'(' || c == b')'

-- The text without its escape sequences: CSI sequences, the choice of a character set with one byte
-- behind its bracket, and the escape byte with any other byte behind it.
pub data IsTextOf : Bytes → Bytes → Type 0 where
  empty : IsTextOf [] []
  plain : {c : ℕ} {s out : Bytes} → is_plain c ≡ true → IsTextOf s out → IsTextOf (c ∷ s) (c ∷ out)
  lone : IsTextOf (0x1b ∷ []) []
  csi_sequence :
      {s rest out : Bytes} → CsiEnd s rest → IsTextOf rest out → IsTextOf (0x1b ∷ b'[' ∷ s) out
  bracket_end : {c : ℕ} → is_bracket c ≡ true → IsTextOf (0x1b ∷ c ∷ []) []
  bracket :
      {c d : ℕ} {s out : Bytes}
      → is_bracket c ≡ true
      → IsTextOf s out
      → IsTextOf (0x1b ∷ c ∷ d ∷ s) out
  other :
      {c : ℕ} {s out : Bytes}
      → (c == b'[') ≡ false
      → is_bracket c ≡ false
      → IsTextOf s out
      → IsTextOf (0x1b ∷ c ∷ s) out

-- What the loop makes of a text, from each of its places.
pub record Strips (s : Bytes) : Type 0 where
  pub from_text : IsTextOf s (strip_from text s)
  pub from_escaped : IsTextOf (0x1b ∷ s) (strip_from escaped s)
  pub from_csi : (rest : Bytes) × CsiEnd s rest × IsTextOf rest (strip_from csi s)
  pub from_charset : (c : ℕ) → is_bracket c ≡ true → IsTextOf (0x1b ∷ c ∷ s) (strip_from charset s)

module _ (c : ℕ) (cs : Bytes) (h : Strips cs) where
  text_step : IsTextOf (c ∷ cs) (strip_from text (c ∷ cs))
  unfolding strip_from kept next_place
  text_step = elim (Bool-cases (c == 0x1b)) [
    | inl e ↦ let is : c ≡ 0x1b = ground (arith, e) in rw is h.from_escaped
    | inr e ↦ rw (e, strip_from) (plain (rw e refl) h.from_text)
  ]

  escaped_step : IsTextOf (0x1b ∷ c ∷ cs) (strip_from escaped (c ∷ cs))
  unfolding strip_from kept next_place
  escaped_step = elim (Bool-cases (c == b'[')) [
    | inl e ↦
        let is : c ≡ b'[' = ground (arith, e) in
        let (rest, ends, behind) = h.from_csi in rw is (csi_sequence ends behind)
    | inr e ↦ elim (Bool-cases (is_bracket c)) [
      | inl f ↦ rw (e, f) (h.from_charset c f)
      | inr f ↦ rw (e, f) (other e f h.from_text)
    ]
  ]

  csi_step : (rest : Bytes) × CsiEnd (c ∷ cs) rest × IsTextOf rest (strip_from csi (c ∷ cs))
  unfolding strip_from kept next_place
  csi_step = elim (Bool-cases (ltb c 0x40 || ltb 0x7e c)) [
    | inl e ↦
        let (rest, ends, behind) = h.from_csi in
        rw e (rest, parameter (ground (arith, e)) ends, behind)
    | inr e ↦ rw e (cs, final (ground (arith, e)), h.from_text)
  ]

Strips-all : (s : Bytes) → Strips s
unfolding strip_from kept next_place
Strips-all [] = record {
  from_text = empty;
  from_escaped = lone;
  from_csi = ([], cut_short, empty);
  from_charset = λ c e. bracket_end e;
}
Strips-all (c ∷ cs) =
    let h = Strips-all cs in
    record {
      from_text = text_step c cs h;
      from_escaped = escaped_step c cs h;
      from_csi = csi_step c cs h;
      from_charset = λ d e. bracket e h.from_text;
    }

-- A stripped text is the text without its escape sequences, each taken out whole; it has no escape
-- byte and is not longer than the text, and stripping it again changes nothing.
pub strip_ansi-IsStripped :
    (s : Bytes)
    → IsTextOf s (strip_ansi s)
      × IsStripped s (strip_ansi s)
      × (strip_ansi (strip_ansi s) ≡ strip_ansi s)
unfolding strip_ansi
strip_ansi-IsStripped s =
    let h = strip_from-IsStripped text s in
    ((Strips-all s).from_text, h, strip_from-plain (strip_from text s) h.plain)
