-- ===== src/Types.antt =====
-- core/types.c: `result_t`, the string helpers and `sanitize_output`. The string buffer is in
-- StrBuf. What a function returns by `strdup` is the value of the string.

pub mod StrBuf
pub mod Trim
pub mod Sanitize
use vajra_ai.Prelude.{
  ℕ, ◌-◌, Bool, true, false, ◌&&◌, ◌||◌, Option, none, some, List, [], ◌∷◌, ◌++◌, ltb, leb, ◌==◌,
  if◌then◌else◌, length, drop,
}
use vajra_ai.CString.{Bytes, is_space, equal, has_prefix, skip_space, strip_end}

pub data Status : Type 0 where
  ok err_generic err_alloc err_io err_parse : Status
  err_network err_not_found err_permission err_timeout err_max_iterations : Status

-- `result_t`; the message is NULL on `ok`.
pub record Result : Type 0 where
  pub status : Status
  pub message : Option Bytes

abbrev pub result_ok : Result
result_ok = record { status = ok; message = none }

-- `err()` once its message is formatted.
abbrev pub result_err : Status → Bytes → Result
result_err status message = record { status = status; message = some message }

-- `str_trim`: the last loop stops at the first byte that is kept (`end > s`).
unfoldable pub trim_tail : Bytes → Bytes
unfolding strip_end
trim_tail [] = []
trim_tail (c ∷ cs) = c ∷ strip_end cs

unfoldable pub str_trim : Bytes → Bytes
unfolding skip_space trim_tail
str_trim s = trim_tail (skip_space s)

unfoldable pub str_starts_with : Option Bytes → Option Bytes → Bool
str_starts_with none prefix = false
str_starts_with (some s) none = false
str_starts_with (some s) (some prefix) = has_prefix s prefix

unfoldable pub str_ends_with : Option Bytes → Option Bytes → Bool
str_ends_with none suffix = false
str_ends_with (some s) none = false
str_ends_with (some s) (some suffix) =
    if ltb (length s) (length suffix)
    then false
    else equal (drop (length s - length suffix) s) suffix

-- The states of the loop of `sanitize_output`: in the text, behind an ESC, inside a CSI sequence.
pub data Mode : Type 0 where
  in_text after_esc in_csi : Mode

abbrev is_printable : ℕ → Bool
is_printable c = leb 0x20 c && leb c 0x7e

abbrev is_final : ℕ → Bool
is_final c = leb 0x40 c && leb c 0x7e

-- The top of the loop at one byte: the bytes that it writes, and the state that it goes on in.
unfoldable pub sanitize_byte : ℕ → Bytes × Mode
sanitize_byte c =
    if c == 0x1b
    then ([], after_esc)
    else if c == b'\r'
    then ([], in_text)
    else if c == b'\n' || c == b'\t'
    then (c ∷ [], in_text)
    else if is_printable c
    then (c ∷ [], in_text)
    else ([], in_text)

-- One byte in a state. A byte that does not follow an ESC as the sources want is read as text.
unfoldable pub sanitize_step : Mode → ℕ → Bytes × Mode
unfolding sanitize_byte
sanitize_step in_text c = sanitize_byte c
sanitize_step after_esc c =
    if c == b'['
    then ([], in_csi)
    else if leb 0x40 c && leb c 0x5f
    then ([], in_text)
    else sanitize_byte c
sanitize_step in_csi c = if is_final c then ([], in_text) else ([], in_csi)

unfoldable pub sanitize_from : Mode → Bytes → Bytes
unfolding sanitize_step
sanitize_from m [] = []
sanitize_from m (c ∷ cs) = let (out, m') = sanitize_step m c in out ++ sanitize_from m' cs

unfoldable pub sanitize_output : Option Bytes → Bytes
unfolding sanitize_from
sanitize_output none = []
sanitize_output (some src) = sanitize_from in_text src
