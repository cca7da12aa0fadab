-- ===== src/HistoryLog.antt =====
-- history/history.c: the log file HISTORY.md. The clock is an argument: the date and the time as
-- strftime writes them. The mutex makes each call a step of its own.
pub mod Entries
use vajra_ai.Prelude.{
  ℕ, zero, suc, ◌+◌, ◌-◌, ◌≤◌, Bool, true, false, ◌||◌, Option, none, some, List, [], ◌∷◌, ◌++◌,
  ltb, leb, ◌==◌, if◌then◌else◌, length, take, drop, get_elem?,
}
use vajra_ai.Prelude.Int.{ℤ, pos, negsuc}
use vajra_ai.CString.{Bytes, codes, equal, has_prefix, strchr}
use vajra_ai.Files.{fgets_lines}

abbrev category_names : List Bytes
category_names =
    codes "System Event"
    ∷ codes "Tool Execution"
    ∷ codes "Memory Update"
    ∷ codes "Model Change"
    ∷ codes "API Call"
    ∷ codes "Error"
    ∷ codes "Feature"
    ∷ codes "Fix"
    ∷ []

-- `struct history` with the content of the file at its path; NULL where there is no file.
pub record History : Type 0 where
  pub file : Option Bytes
  pub last_date : Bytes

abbrev line_feed : Bytes
line_feed = b'\n' ∷ []

abbrev pub file_header : Bytes
file_header =
    line_feed
    ++ line_feed
    ++ codes "# History"
    ++ line_feed
    ++ line_feed
    ++ codes "Chronological, append-only log of significant agent events."
    ++ line_feed
    ++ line_feed
    ++ codes "Purpose: auditability, debugging, execution traceability."
    ++ line_feed
    ++ line_feed
    ++ codes "**This file must never be rewritten or reordered.**"
    ++ line_feed
    ++ line_feed
    ++ codes "---"
    ++ line_feed
    ++ line_feed

-- `ensure_file`; the flag tells whether a file can be created.
unfoldable pub ensure_file : Bool → Option Bytes → Option Bytes
ensure_file can_create (some content) = some content
ensure_file can_create none = if can_create then some file_header else none

-- One line of `detect_last_date`: `strncpy` takes 15 bytes and the text is cut at 10.
unfoldable pub date_line : Bytes → Bytes → Bytes
unfolding has_prefix
date_line last line =
    if has_prefix line (codes "## 20") then take 10 (take 15 (drop 3 line)) else last

unfoldable pub date_lines : Bytes → List Bytes → Bytes
unfolding date_line
date_lines last [] = last
date_lines last (line ∷ lines) = date_lines (date_line last line) lines

-- The last 4 KB of the file, read with a buffer of 256 bytes.
unfoldable pub detect_last_date : Option Bytes → Bytes → Bytes
unfolding date_lines fgets_lines
detect_last_date none last = last
detect_last_date (some content) last =
    date_lines last (fgets_lines 255 (drop (length content - 4096) content))

unfoldable pub history_create : Bool → Option Bytes → History
unfolding ensure_file detect_last_date
history_create can_create found =
    let file = ensure_file can_create found in
    record { file = file; last_date = detect_last_date file [] }

unfoldable pub category_name : ℤ → Bytes
category_name (negsuc _) = codes "Event"
category_name (pos i) = elim (get_elem? category_names i) [ none ↦ codes "Event" | some n ↦ n ]

-- One line of the details: an empty line is left out, and a bullet is kept.
unfoldable pub bullet : Bytes → Bytes
bullet [] = []
bullet (c ∷ cs) =
    if c == b'-' || c == b'*' then (c ∷ cs) ++ line_feed else codes "- " ++ (c ∷ cs) ++ line_feed

-- The loop over the details, which takes the text up to the next line feed; `none` means that the
-- fuel ran out.
unfoldable pub with_line : Bytes → Option Bytes → Option Bytes
unfolding bullet
with_line line none = none
with_line line (some rest) = some (bullet line ++ rest)

-- One round at a text, on what strchr finds.
unfoldable pub at_line : (Bytes → Option Bytes) → Bytes → Option (Bytes × Bytes) → Option Bytes
unfolding with_line
at_line more text none = some (bullet text)
at_line more text (some (line, rest)) = with_line line (more rest)

unfoldable pub bullets : ℕ → Bytes → Option Bytes
unfolding at_line
bullets fuel [] = some []
bullets zero (c ∷ cs) = none
bullets (suc fuel) (c ∷ cs) = at_line (bullets fuel) (c ∷ cs) (strchr (c ∷ cs) b'\n')

unfoldable pub detail_lines : Option Bytes → Option Bytes
unfolding bullets
detail_lines none = some []
detail_lines (some details) = bullets (length details) details

unfoldable pub date_heading : Bytes → Bytes → Bytes
date_heading date last =
    if equal date last then [] else line_feed ++ codes "## " ++ date ++ line_feed ++ line_feed

-- The entry behind the date heading.
unfoldable pub entry_text : ℤ → Bytes → Bytes → Bytes → Bytes
unfolding category_name
entry_text category title ts details =
    codes "### ["
    ++ category_name category
    ++ codes "] "
    ++ title
    ++ line_feed
    ++ codes "- Time: "
    ++ ts
    ++ line_feed
    ++ details
    ++ line_feed

-- `strncpy(h->last_date, date, 15)` where the date has changed.
unfoldable pub new_date : Bytes → Bytes → Bytes
unfolding equal
new_date date last = if equal date last then last else take 15 date

-- What the call writes once the file is open.
unfoldable pub append_entry :
    Bytes → Bytes → ℤ → Bytes → History → Bytes → Option Bytes → Option History
unfolding date_heading entry_text new_date
append_entry date ts category title h content none = none
append_entry date ts category title h content (some lines) = some record {
  file = some (content ++ date_heading date h.last_date ++ entry_text category title ts lines);
  last_date = new_date date h.last_date;
}

abbrev content_of : Option Bytes → Bytes
content_of none = []
content_of (some content) = content

-- `history_log`; `can_open` tells whether the file opens, which creates it if it is not there.
-- `none` means that a loop does not end.
unfoldable pub history_log :
    Bytes → Bytes → Bool → ℤ → Option Bytes → Option Bytes → History → Option History
unfolding append_entry detail_lines
history_log date ts can_open category none details h = some h
history_log date ts can_open category (some title) details h =
    if can_open
    then append_entry date ts category title h (content_of h.file) (detail_lines details)
    else some h
