-- ===== src/Types/Sanitize.antt =====
-- `sanitize_output` of core/types.c: what may stand in its result.
use vajra_ai.Prelude.{
  all-append, ◌≡◌, refl, sym, ap, ◌∙◌, append-nil, not, ℕ, Bool, true, false, ◌&&◌, ◌||◌, Option,
  none, some, [], ◌∷◌, ◌++◌, arith, all, leb, ◌==◌,
}
use vajra_ai.CString.{Bytes}
use vajra_ai.Types.{Mode, in_text, in_csi, sanitize_step, sanitize_from, sanitize_output}

-- Printable ASCII, line feed and tab: what types.h promises to keep.
abbrev pub is_kept : ℕ → Bool
is_kept c = c == b'\n' || c == b'\t' || (leb 0x20 c && leb c 0x7e)

sanitize_step-kept : (m : Mode) (c : ℕ) → all is_kept (sanitize_step m c).0 ≡ true
unfolding sanitize_step
sanitize_step-kept m c = ground arith

sanitize_step-fixed : (c : ℕ) → is_kept c ≡ true → sanitize_step in_text c ≡ (c ∷ [], in_text)
unfolding sanitize_step
sanitize_step-fixed c h = ground arith

all-head : (p : ℕ → Bool) (x : ℕ) (xs : Bytes) → all p (x ∷ xs) ≡ true → p x ≡ true
all-head p x xs h = ground arith

all-tail : (p : ℕ → Bool) (x : ℕ) (xs : Bytes) → all p (x ∷ xs) ≡ true → all p xs ≡ true
all-tail p x xs h = ground arith

sanitize_from-kept : (m : Mode) (s : Bytes) → all is_kept (sanitize_from m s) ≡ true
unfolding sanitize_from
sanitize_from-kept m [] = refl
sanitize_from-kept m (c ∷ cs) =
    let (out, m') = sanitize_step m c in
    rw (all-append is_kept out (sanitize_from m' cs))
      (rw (sanitize_step-kept m c) (sanitize_from-kept m' cs))

-- Whatever the input, every byte of the result is printable ASCII, a line feed or a tab.
pub sanitize_output-kept : (src : Option Bytes) → all is_kept (sanitize_output src) ≡ true
unfolding sanitize_output
sanitize_output-kept none = refl
sanitize_output-kept (some s) = sanitize_from-kept in_text s

-- Kept bytes pass through, with anything behind them.
sanitize_from-append :
    (s rest : Bytes)
    → all is_kept s ≡ true
    → sanitize_from in_text (s ++ rest) ≡ s ++ sanitize_from in_text rest
unfolding sanitize_from
sanitize_from-append [] rest h = refl
sanitize_from-append (c ∷ cs) rest h =
    rw (sanitize_step-fixed c (all-head is_kept c cs h))
      (ap (◌∷◌ c) (sanitize_from-append cs rest (all-tail is_kept c cs h)))

-- A text of kept bytes is its own result, so sanitizing twice is sanitizing once.
pub sanitize_output-fixed : (s : Bytes) → all is_kept s ≡ true → sanitize_output (some s) ≡ s
unfolding sanitize_output
sanitize_output-fixed s h =
    ap (sanitize_from in_text) (sym (append-nil s))
    ∙ sanitize_from-append s [] h
    ∙ unfold sanitize_from in append-nil s

-- A second pass over the result changes nothing.
pub sanitize_output_idempotent :
    (src : Option Bytes) → sanitize_output (some (sanitize_output src)) ≡ sanitize_output src
sanitize_output_idempotent src = sanitize_output-fixed _ (sanitize_output-kept src)

-- A byte that does not end a CSI sequence.
abbrev pub is_parameter : ℕ → Bool
is_parameter c = not (leb 0x40 c && leb c 0x7e)

sanitize_from-csi :
    (params : Bytes) (final : ℕ) (rest : Bytes)
    → all is_parameter params ≡ true
    → is_parameter final ≡ false
    → sanitize_from in_csi (params ++ final ∷ rest) ≡ sanitize_from in_text rest
unfolding sanitize_from sanitize_step
sanitize_from-csi [] final rest h f = ground arith
sanitize_from-csi (c ∷ cs) final rest h f = ground (arith, sanitize_from-csi cs final rest)

-- A CSI escape sequence between two texts is dropped whole, and nothing else is: the kept bytes in
-- front of it stay, and what follows is sanitized as if it stood alone.
pub sanitize_output-csi :
    (before params : Bytes) (final : ℕ) (rest : Bytes)
    → all is_kept before ≡ true
    → all is_parameter params ≡ true
    → is_parameter final ≡ false
    → sanitize_output (some (before ++ (0x1b ∷ b'[' ∷ (params ++ final ∷ rest))))
      ≡ before ++ sanitize_output (some rest)
unfolding sanitize_output
sanitize_output-csi before params final rest hb hp hf =
    sanitize_from-append before _ hb
    ∙ ap (◌++◌ before)
        (unfold sanitize_from sanitize_step in sanitize_from-csi params final rest hp hf)
