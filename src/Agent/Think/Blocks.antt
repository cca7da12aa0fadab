-- ===== src/Agent/Think/Blocks.antt =====
-- `strip_think_tags`: the loop ends, and what it does with a text, a block and an open block.
use mathlib.Core.Option
use vajra_ai.Prelude.{
  ℕ, zero, suc, ◌<◌, ◌≡◌, refl, sym, ap, ◌∙◌, none, some, ◌++◌, arith, inl, inr, length, drop,
  Option-cases, length-append, length-drop, append_assoc,
}
use vajra_ai.CString.{Bytes, strstr}
use vajra_ai.CString.Search.{strstr-Found, strstr-append}
use vajra_ai.Types.{str_trim}
use vajra_ai.Types.Trim.{IsTrimOf, str_trim-IsTrimOf}
use vajra_ai.Agent.Think.{open_tag, close_tag, strip_loop, strip_text, strip_think_tags}

-- A round with a whole block goes on with a shorter text.
shorter :
    (p a b c d : Bytes)
    → strstr p open_tag ≡ some (a, b)
    → strstr (drop 7 b) close_tag ≡ some (c, d)
    → length (drop 8 d) < length p
shorter p a b c d e f =
    let u = strstr-Found p open_tag a b e in
    let v = strstr-Found (drop 7 b) close_tag c d f in
    omega (
      arith,
      ap length u.splits,
      length-append a b,
      u.long,
      length-drop 7 b,
      ap length v.splits,
      length-append c d,
      v.long,
      length-drop 8 d,
    )

-- The three ends of a round.
strip_loop-plain : (f : ℕ) (p : Bytes) → strstr p open_tag ≡ none → strip_loop (suc f) p ≡ some p
unfolding strip_loop
strip_loop-plain f p e = rw (e, strip_loop) refl

strip_loop-open :
    (f : ℕ) (p a b : Bytes)
    → strstr p open_tag ≡ some (a, b)
    → strstr (drop 7 b) close_tag ≡ none
    → strip_loop (suc f) p ≡ some a
unfolding strip_loop
strip_loop-open f p a b e n = rw (e, strip_loop) (rw n refl)

strip_loop-block :
    (f : ℕ) (p a b c d : Bytes)
    → strstr p open_tag ≡ some (a, b)
    → strstr (drop 7 b) close_tag ≡ some (c, d)
    → strip_loop (suc f) p ≡ Option.map (λ r. a ++ r) (strip_loop f (drop 8 d))
unfolding strip_loop
strip_loop-block f p a b c d e n = rw (e, strip_loop) (rw n refl)

-- Fuel above the length gives one result, whatever the fuel.
strip_loop-fuel :
    (f g : ℕ) (p : Bytes)
    → length p < f
    → length p < g
    → (r : Bytes) × (strip_loop f p ≡ some r) × (strip_loop g p ≡ some r)
strip_loop-fuel zero g p h k = absurd (omega arith)
strip_loop-fuel (suc f) zero p h k = absurd (omega arith)
strip_loop-fuel (suc f) (suc g) p h k = elim (Option-cases (strstr p open_tag)) [
  | inl e ↦ (p, strip_loop-plain f p e, strip_loop-plain g p e)
  | inr ((a, b), e) ↦ elim (Option-cases (strstr (drop 7 b) close_tag)) [
    | inl n ↦ (a, strip_loop-open f p a b e n, strip_loop-open g p a b e n)
    | inr ((c, d), n) ↦
        let less = shorter p a b c d e n in
        let (r, p₁, p₂) =
          strip_loop-fuel f g (drop 8 d) (omega (arith, less)) (omega (arith, less)) in
        (
          a ++ r,
          strip_loop-block f p a b c d e n ∙ ap (Option.map (λ r. a ++ r)) p₁,
          strip_loop-block g p a b c d e n ∙ ap (Option.map (λ r. a ++ r)) p₂,
        )
  ]
]

strip_text-total : (s : Bytes) → (r : Bytes) × (strip_text s ≡ some r)
unfolding strip_text
strip_text-total s =
    let (r, e, _) =
      strip_loop-fuel (suc (length s)) (suc (length s)) s (omega arith) (omega arith) in
    (r, e)

-- `strip_think_tags` returns a string for every string: its loop ends, and the result is trimmed.
pub strip_think_tags-total :
    (s : Bytes)
    → (t r : Bytes) × (strip_think_tags (some s) ≡ some r) × (strip_text s ≡ some t) × IsTrimOf t r
unfolding strip_think_tags
strip_think_tags-total s =
    let (t, e) = strip_text-total s in (t, str_trim t, rw e refl, e, str_trim-IsTrimOf t)

-- The first block in front of `rest` is taken out with its tags: the text before it stays as it
-- is, and `rest` is treated as if it stood alone. Here `before` and `inner` hold no tag that would
-- be found earlier.
pub strip_text-block :
    (before inner rest : Bytes)
    → strstr (before ++ open_tag) open_tag ≡ some (before, open_tag)
    → strstr (inner ++ close_tag) close_tag ≡ some (inner, close_tag)
    → strip_text (before ++ (open_tag ++ (inner ++ (close_tag ++ rest))))
      ≡ Option.map (λ r. before ++ r) (strip_text rest)
unfolding strip_text
strip_text-block before inner rest ho hc =
    let tail = inner ++ (close_tag ++ rest) in
    let s = before ++ (open_tag ++ tail) in
    let e : strstr s open_tag ≡ some (before, open_tag ++ tail) =
      ap (λ (t : Bytes). strstr t open_tag) (sym (append_assoc before open_tag tail))
      ∙ strstr-append (before ++ open_tag) open_tag before open_tag tail ho in
    let n : strstr tail close_tag ≡ some (inner, close_tag ++ rest) =
      ap (λ (t : Bytes). strstr t close_tag) (sym (append_assoc inner close_tag rest))
      ∙ strstr-append (inner ++ close_tag) close_tag inner close_tag rest hc in
    let less = shorter s before (open_tag ++ tail) inner (close_tag ++ rest) e n in
    let (r, p₁, p₂) = strip_loop-fuel (length s) (suc (length rest)) rest less (omega arith) in
    strip_loop-block (length s) s before (open_tag ++ tail) inner (close_tag ++ rest) e n
    ∙ ap (Option.map (λ r. before ++ r)) (p₁ ∙ sym p₂)

-- Without an opening tag the text stays, and behind an opening tag that is never closed nothing
-- stays.
pub strip_text_ends :
    (s before inner : Bytes)
    → (strstr s open_tag ≡ none → strip_text s ≡ some s)
      × (strstr (before ++ open_tag) open_tag ≡ some (before, open_tag)
          → strstr inner close_tag ≡ none
          → strip_text (before ++ (open_tag ++ inner)) ≡ some before)
unfolding strip_text
strip_text_ends s before inner = (
  (λ e. strip_loop-plain (length s) s e),
  (λ ho hc.
      let e : strstr (before ++ (open_tag ++ inner)) open_tag ≡ some (before, open_tag ++ inner) =
        ap (λ (t : Bytes). strstr t open_tag) (sym (append_assoc before open_tag inner))
        ∙ strstr-append (before ++ open_tag) open_tag before open_tag inner ho in
      strip_loop-open _ (before ++ (open_tag ++ inner)) before (open_tag ++ inner) e hc),
)
