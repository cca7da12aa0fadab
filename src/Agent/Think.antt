-- ===== src/Agent/Think.antt =====
-- agent/agent.c, `strip_think_tags`.
pub mod Blocks
use mathlib.Core.Option
use vajra_ai.Prelude.{ℕ, zero, suc, Option, none, some, List, [], ◌∷◌, ◌++◌, length, drop}
use vajra_ai.CString.{Bytes, codes, strstr}
use vajra_ai.Types.{str_trim}

abbrev pub open_tag : Bytes
open_tag = codes "<think>"

abbrev pub close_tag : Bytes
close_tag = codes "</think>"

-- The loop over what is left of the input, as what it appends to the buffer. `none` means that the
-- fuel ran out.
unfoldable pub strip_loop : ℕ → Bytes → Option Bytes
strip_loop zero p = none
strip_loop (suc fuel) p = elim (strstr p open_tag) [
  | none ↦ some p
  | some (before, from_open) ↦ elim (strstr (drop 7 from_open) close_tag) [
    | none ↦ some before
    | some (_, from_close) ↦
        Option.map (λ rest. before ++ rest) (strip_loop fuel (drop 8 from_close))
  ]
]

-- Every round of the loop takes at least the two tags off.
unfoldable pub strip_text : Bytes → Option Bytes
unfolding strip_loop
strip_text input = strip_loop (suc (length input)) input

unfoldable pub strip_think_tags : Option Bytes → Option Bytes
unfolding strip_text
strip_think_tags none = none
strip_think_tags (some input) = Option.map str_trim (strip_text input)
