-- ===== src/Serial/Command.antt =====
-- tools/serial/serial_tool.c, `run_one_command`: one command, and what is kept of its output.
use vajra_ai.Prelude.{
  ℕ, Bool, true, false, not, ◌&&◌, ◌||◌, Option, none, some, List, [], ◌∷◌, ◌++◌, ◌==◌,
  if◌then◌else◌, take,
}
use vajra_ai.CString.{Bytes, codes, equal, strstr, until_nul}
use vajra_ai.Serial.{skip_while, strip_while, is_blank, is_newline}
use vajra_ai.Serial.Read.{Event, read_until}

-- `status` of a result
pub data Status : Type 0 where
  ok timeout error : Status

-- `cmd_result_t`
pub record CmdResult : Type 0 where
  pub command : Bytes
  pub output : Bytes
  pub status : Status

-- The lines of a text; a rest without a line feed is one if it is not empty.
unfoldable pub split_lines : Bytes → Bytes → List Bytes
split_lines [] [] = []
split_lines (x ∷ xs) [] = (x ∷ xs) ∷ []
split_lines line (c ∷ cs) = elim (c == b'\n') [
  | true ↦ line ∷ split_lines [] cs
  | false ↦ split_lines (line ++ c ∷ []) cs
]

-- A carriage return at the end is left out.
abbrev last_only : Bytes → Bool
last_only [] = true
last_only (x ∷ xs) = false

unfoldable pub without_cr : Bytes → Bytes
without_cr [] = []
without_cr (c ∷ cs) =
    let rest = without_cr cs in if last_only cs && c == b'\r' then [] else c ∷ rest

abbrev occurs : Option (Bytes × Bytes) → Bool
occurs none = false
occurs (some _) = true

abbrev joined : Bytes → Bytes → Bytes
joined [] line = line
joined (c ∷ cs) line = (c ∷ cs) ++ (b'\n' ∷ line)

-- The loop over the lines: whether the echo has been removed, and what is kept.
unfoldable pub clean_lines : Bytes → Bytes → Bool → List Bytes → Bytes → Bytes
unfolding without_cr skip_while strstr equal
clean_lines command prompt echo_removed [] cleaned = cleaned
clean_lines command prompt echo_removed (line ∷ lines) cleaned =
    let kept = without_cr line in
    let trimmed = skip_while is_blank kept in
    elim (not echo_removed && occurs (strstr trimmed command)) [
      | true ↦ clean_lines command prompt true lines cleaned
      | false ↦ elim (equal trimmed prompt) [
        | true ↦ clean_lines command prompt echo_removed lines cleaned
        | false ↦ clean_lines command prompt echo_removed lines (joined cleaned kept)
      ]
    ]

abbrev is_margin : ℕ → Bool
is_margin c = is_newline c || c == b' '

unfoldable pub clean_output : Bytes → Bytes → Bytes → Bytes
unfolding clean_lines split_lines skip_while strip_while until_nul
clean_output command prompt buf =
    strip_while is_margin
      (skip_while is_margin (clean_lines command prompt false (split_lines [] (until_nul buf)) []))

abbrev status_of : Option ℕ → Status
status_of none = timeout
status_of (some _) = ok

abbrev cleaned_result : Bytes → Bytes → Option ℕ × Bytes × List Event → CmdResult
cleaned_result command prompt (matched, buf, events) = record {
  command = take 1023 command;
  output = clean_output command prompt buf;
  status = status_of matched;
}

-- Does the write succeed, and what comes up to the deadline?
unfoldable pub run_one_command : Bytes → Bytes → Bool → List Event → CmdResult
unfolding clean_output read_until
run_one_command command prompt false events = record {
  command = take 1023 command;
  output = codes "write failed";
  status = error;
}
run_one_command command prompt true events =
    cleaned_result command prompt (read_until (prompt ∷ []) events [])
