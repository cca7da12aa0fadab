-- ===== src/Scheduler/Snapshot.antt =====
-- tools/scheduler/scheduler.c, `scheduler_task_snapshot`: the table of the active tasks, as far as
-- it fits the caller's buffer.
use vajra_ai.Prelude.{
  ℕ, zero, suc, ◌+◌, ◌-◌, ◌/◌, ◌≤◌, ◌<◌, ◌≡◌, refl, sym, ap, ◌∙◌, inl, inr, Bool, true, false, ◌||◌,
  Option, none, some, List, [], ◌∷◌, ◌++◌, arith, ltb, if◌then◌else◌, length, take, length-append,
  take-eq_of_le, take-append_left, append_assoc, append-nil, Bool-cases, ltb→lt, ltb-false→le,
}
use vajra_ai.CString.{Bytes, codes}
use vajra_ai.CString.Number.{decimal}
use vajra_ai.ToolRegistry.{or_empty}
use vajra_ai.Scheduler.{Task, Scheduler}

-- `%-Ns`: blanks up to the width.
unfoldable pub blanks : ℕ → Bytes
blanks zero = []
blanks (suc n) = b' ' ∷ blanks n

unfoldable pub padded : ℕ → Bytes → Bytes
unfolding blanks
padded width s = s ++ blanks (width - length s)

-- An ANSI escape sequence.
abbrev escape : Bytes → Bytes
escape s = 0x1b ∷ b'[' ∷ s

-- The human-readable interval.
unfoldable pub interval_text : ℕ → Bytes
unfolding decimal
interval_text n =
    if ltb n 60
    then decimal n ++ codes "s"
    else if ltb n 3600
    then decimal (n / 60) ++ codes "m"
    else decimal (n / 3600) ++ codes "h"

unfoldable pub header_row : Bytes
unfolding padded
header_row =
    escape (codes "1m")
    ++ padded 4 (codes "ID")
    ++ codes "  "
    ++ padded 20 (codes "Name")
    ++ codes "  "
    ++ padded 12 (codes "Interval")
    ++ codes "  Status"
    ++ escape (codes "0m")
    ++ b'\n' ∷ []

abbrev status_text : Bool → Bytes
status_text true = escape (codes "33mpaused") ++ escape (codes "0m")
status_text false = escape (codes "32mrunning") ++ escape (codes "0m")

unfoldable pub task_row : Task → Bytes
unfolding padded interval_text decimal
task_row t =
    padded 4 (decimal t.id)
    ++ codes "  "
    ++ escape (codes "36m")
    ++ padded 20 (or_empty t.name)
    ++ escape (codes "0m")
    ++ codes "  "
    ++ padded 12 (interval_text t.interval_sec)
    ++ codes "  "
    ++ status_text t.paused
    ++ b'\n' ∷ []

-- The count of active tasks is not 0.
unfoldable pub any_active : List Task → Bool
any_active [] = false
any_active (t ∷ ts) = t.active || any_active ts

-- snprintf(buf + used, size - used, text) on a buffer of `size` bytes that holds `buf`.
abbrev printed : ℕ → Bytes → ℕ → Bytes → Bytes
printed size buf used text = take used buf ++ take (size - used - 1) text

-- The loop over the tasks: it ends where `used` leaves no room for another byte.
unfoldable pub snapshot_rows : ℕ → Bytes → ℕ → List Task → Bytes
unfolding task_row
snapshot_rows size buf used [] = buf
snapshot_rows size buf used (t ∷ ts) =
    let skipped = snapshot_rows size buf used ts in
    let row = task_row t in
    let added = snapshot_rows size (printed size buf used row) (used + length row) ts in
    if ltb used (size - 1) then if t.active then added else skipped else buf

abbrev no_tasks : Bytes
no_tasks = codes "No scheduled background tasks." ++ b'\n' ∷ []

-- What the buffer holds afterwards; `none` where the function leaves a buffer of size 0 alone.
unfoldable pub scheduler_task_snapshot : Option Scheduler → ℕ → Option Bytes
unfolding any_active snapshot_rows header_row
scheduler_task_snapshot sched zero = none
scheduler_task_snapshot none (suc room) =
    some (take room (codes "Scheduler not available." ++ b'\n' ∷ []))
scheduler_task_snapshot (some s) (suc room) = some (
    if any_active s.tasks
    then snapshot_rows (suc room) (take room header_row) (length header_row) s.tasks
    else take room no_tasks)

-- The rows of the active tasks, one behind the other.
unfoldable pub table_rows : List Task → Bytes
table_rows [] = []
table_rows (t ∷ ts) = if t.active then task_row t ++ table_rows ts else table_rows ts

-- The whole text, if there is room.
unfoldable pub full_table : List Task → Bytes
full_table ts = if any_active ts then header_row ++ table_rows ts else no_tasks

take-append_right :
    (n : ℕ) (xs ys : Bytes) → length xs ≤ n → take n (xs ++ ys) ≡ xs ++ take (n - length xs) ys
take-append_right n [] ys h =
    let same : n - 0 ≡ n = omega arith in ap (λ (m : ℕ). take m ys) (sym same)
take-append_right zero (x ∷ xs) ys h = absurd (omega arith)
take-append_right (suc n) (x ∷ xs) ys h =
    let same : n - length xs ≡ suc n - suc (length xs) = omega arith in
    ap (◌∷◌ x) (take-append_right n xs ys (omega arith) ∙ ap (λ (m : ℕ). xs ++ take m ys) same)

printed-fits :
    (room : ℕ) (text row : Bytes)
    → length text < room
    → printed (suc room) (take room text) (length text) row ≡ take room (text ++ row)
printed-fits room text row h =
    let whole : take (length text) (take room text) ≡ text =
      ap (take (length text)) (take-eq_of_le room text (omega arith))
      ∙ take-eq_of_le (length text) text (omega arith) in
    let left : suc room - length text - 1 ≡ room - length text = omega arith in
    rw (whole, left) (sym (take-append_right room text row (omega arith)))

row_lem :
    (room : ℕ) (text row : Bytes) (ts : List Task)
    → length text < room
    → snapshot_rows
        (suc room)
        (printed (suc room) (take room text) (length text) row)
        (length text + length row)
        ts
      ≡ snapshot_rows (suc room) (take room (text ++ row)) (length (text ++ row)) ts
row_lem room text row ts h = rw (printed-fits room text row h, length-append text row) refl

snapshot_rows_lem :
    (room : ℕ) (text : Bytes) (ts : List Task)
    → snapshot_rows (suc room) (take room text) (length text) ts ≡ take room (text ++ table_rows ts)
unfolding snapshot_rows table_rows
snapshot_rows_lem room text [] = ap (take room) (sym (append-nil text))
snapshot_rows_lem room text (t ∷ ts) = elim (Bool-cases (ltb (length text) (suc room - 1))) [
  | inl e ↦
      let h : length text < room = omega (arith, ltb→lt (length text) (suc room - 1) e) in
      elim (Bool-cases t.active) [
        | inl f ↦
            rw (e, f)
              (row_lem room text (task_row t) ts h
                ∙ snapshot_rows_lem room (text ++ task_row t) ts
                ∙ ap (take room) (append_assoc text (task_row t) (table_rows ts)))
        | inr f ↦ rw (e, f) (snapshot_rows_lem room text ts)
      ]
  | inr e ↦
      let full : room ≤ length text = omega (arith, ltb-false→le (length text) (suc room - 1) e) in
      rw e (sym (take-append_left room text (table_rows (t ∷ ts)) full))
]

-- In a buffer of `size` bytes, above 0, the function leaves the first `size - 1` bytes of the whole
-- table: the header and one row for each active task, or the note that there is none.
pub scheduler_task_snapshot-full_table :
    (s : Scheduler) (room : ℕ)
    → scheduler_task_snapshot (some s) (suc room) ≡ some (take room (full_table s.tasks))
unfolding scheduler_task_snapshot full_table
scheduler_task_snapshot-full_table s room = elim (Bool-cases (any_active s.tasks)) [
  | inl e ↦ rw e (ap some (snapshot_rows_lem room header_row s.tasks))
  | inr e ↦ rw e refl
]
