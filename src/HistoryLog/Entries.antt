-- ===== src/HistoryLog/Entries.antt =====
-- history/history.c, `history_log`: what a sequence of calls leaves in the file.
use vajra_ai.Prelude.{
  ℕ, zero, suc, ◌≤◌, ◌<◌, ◌≡◌, refl, sym, ap, ◌∙◌, inl, inr, Bool, true, false, ◌&&◌, Option, none,
  some, List, [], ◌∷◌, ◌++◌, arith, ◌==◌, leb, if◌then◌else◌, length, take-eq_of_le, leb→le,
  append-nil, append_assoc, Bool-cases,
}
use vajra_ai.Prelude.Int.{ℤ}
use vajra_ai.CString.{Bytes, codes, equal, strchr, cons_before}
use vajra_ai.CString.Laws.{equal_iff}
use vajra_ai.HistoryLog.{
  History, bullet, with_line, bullets, detail_lines, at_line, category_name, date_heading,
  entry_text, new_date, append_entry, content_of, history_log,
}

-- The lines of a text: what stands between its line feeds.
abbrev cons_first : ℕ → List Bytes → List Bytes
cons_first c [] = (c ∷ []) ∷ []
cons_first c (l ∷ ls) = (c ∷ l) ∷ ls

unfoldable pub lines_of : Bytes → List Bytes
lines_of [] = [] ∷ []
lines_of (c ∷ cs) = if c == b'\n' then [] ∷ lines_of cs else cons_first c (lines_of cs)

abbrev pub bullet_list : List Bytes → Bytes
bullet_list [] = []
bullet_list (l ∷ ls) = bullet l ++ bullet_list ls

-- What strchr finds, in terms of the lines.
abbrev Agrees : Bytes → Option (Bytes × Bytes) → Type 0
Agrees s none = lines_of s ≡ s ∷ []
Agrees s (some (line, rest)) = (lines_of s ≡ line ∷ lines_of rest) × (length rest < length s)

Agrees-cons_before :
    (c : ℕ) (cs : Bytes) (o : Option (Bytes × Bytes))
    → (c == b'\n') ≡ false
    → Agrees cs o
    → Agrees (c ∷ cs) (cons_before c o)
unfolding lines_of
Agrees-cons_before c cs none e h = rw e (ap (cons_first c) h)
Agrees-cons_before c cs (some (line, rest)) e (h, less) = (rw e (ap (cons_first c) h), omega arith)

Agrees-strchr : (s : Bytes) → Agrees s (strchr s b'\n')
unfolding strchr
Agrees-strchr [] = unfold lines_of in refl
Agrees-strchr (c ∷ cs) = elim (Bool-cases (c == b'\n')) [
  | inl e ↦ rw e (unfold lines_of in rw e refl, omega arith)
  | inr e ↦ rw e (Agrees-cons_before c cs (strchr cs b'\n') e (Agrees-strchr cs))
]

at_line_lem :
    (more : Bytes → Option Bytes) (s : Bytes) (o : Option (Bytes × Bytes))
    → Agrees s o
    → ((rest : Bytes) → length rest < length s → more rest ≡ some (bullet_list (lines_of rest)))
    → at_line more s o ≡ some (bullet_list (lines_of s))
unfolding at_line with_line
at_line_lem more s none e k = ap some (sym (append-nil (bullet s)) ∙ ap bullet_list (sym e))
at_line_lem more s (some (line, rest)) (e, less) k =
    ap (with_line line) (k rest less) ∙ ap (λ (ls : List Bytes). some (bullet_list ls)) (sym e)

bullets_lem :
    (fuel : ℕ) (s : Bytes) → length s ≤ fuel → bullets fuel s ≡ some (bullet_list (lines_of s))
unfolding bullets
bullets_lem fuel [] h = unfold lines_of bullet in refl
bullets_lem zero (c ∷ cs) h = absurd (omega arith)
bullets_lem (suc fuel) (c ∷ cs) h =
    at_line_lem (bullets fuel) (c ∷ cs) (strchr (c ∷ cs) b'\n') (Agrees-strchr (c ∷ cs))
      λ rest less. bullets_lem fuel rest (omega arith)

-- The lines that an entry has for its details.
abbrev pub detail_text : Option Bytes → Bytes
detail_text none = []
detail_text (some details) = bullet_list (lines_of details)

detail_lines_lem : (details : Option Bytes) → detail_lines details ≡ some (detail_text details)
unfolding detail_lines
detail_lines_lem none = refl
detail_lines_lem (some details) = bullets_lem (length details) details (omega arith)

-- A call of history_log that opens the file, with the clock's date and time.
pub record Event : Type 0 where
  pub date : Bytes
  pub ts : Bytes
  pub category : ℤ
  pub title : Bytes
  pub details : Option Bytes

abbrev log_or_none : Event → Option History → Option History
log_or_none e none = none
log_or_none e (some h) = history_log e.date e.ts true e.category (some e.title) e.details h

-- A sequence of calls.
unfoldable pub log_all : List Event → Option History → Option History
log_all [] h = h
log_all (e ∷ es) h = log_all es (log_or_none e h)

-- The text of a heading and of an entry, as the file shows them.
abbrev heading_of : Bytes → Bytes → Bytes
heading_of date last =
    if equal date last then [] else codes "\n" ++ codes "## " ++ date ++ codes "\n" ++ codes "\n"

abbrev entry_of : Event → Bytes
entry_of e =
    codes "### ["
    ++ category_name e.category
    ++ codes "] "
    ++ e.title
    ++ codes "\n"
    ++ codes "- Time: "
    ++ e.ts
    ++ codes "\n"
    ++ detail_text e.details
    ++ codes "\n"

-- The text of the calls: each entry behind a heading where its date is not that of the entry in
-- front of it.
abbrev pub sections : Bytes → List Event → Bytes
sections last [] = []
sections last (e ∷ es) = (heading_of e.date last ++ entry_of e) ++ sections e.date es

abbrev pub final_date : Bytes → List Event → Bytes
final_date last [] = last
final_date last (e ∷ es) = final_date e.date es

-- `strftime` writes at most 15 bytes.
abbrev pub all_short : List Event → Bool
all_short [] = true
all_short (e ∷ es) = leb (length e.date) 15 && all_short es

new_date_lem : (date last : Bytes) → length date ≤ 15 → new_date date last ≡ date
unfolding new_date
new_date_lem date last h = elim (Bool-cases (equal date last)) [
  | inl e ↦ rw e (sym ((equal_iff date last).0 e))
  | inr e ↦ rw e (take-eq_of_le 15 date h)
]

date_heading_lem : (date last : Bytes) → date_heading date last ≡ heading_of date last
unfolding date_heading
date_heading_lem date last = refl

history_log_lem :
    (e : Event) (h : History)
    → length e.date ≤ 15
    → history_log e.date e.ts true e.category (some e.title) e.details h
      ≡ some record {
        file = some (content_of h.file ++ heading_of e.date h.last_date ++ entry_of e);
        last_date = e.date;
      }
unfolding history_log append_entry
history_log_lem e h short =
    ap (append_entry e.date e.ts e.category e.title h (content_of h.file))
      (detail_lines_lem e.details)
    ∙ rw (new_date_lem e.date h.last_date short, date_heading_lem e.date h.last_date)
        (unfold entry_text in refl)

regroup : (a b c d : Bytes) → (a ++ b ++ c) ++ d ≡ a ++ ((b ++ c) ++ d)
regroup a b c d = ap (λ (t : Bytes). t ++ d) (append_assoc a b c) ∙ append_assoc a (b ++ c) d

and_left : (a b : Bool) → (a && b) ≡ true → a ≡ true
and_left a b h = ground arith

and_right : (a b : Bool) → (a && b) ≡ true → b ≡ true
and_right a b h = ground arith

-- Any calls that open the file return. They leave what the file held before as it is and append one
-- entry each, with one bullet for each line of its details that is not empty, and a heading with the
-- date in front of exactly those entries whose date is not that of the entry before; the date that
-- is kept is that of the last entry. Dates have at most 15 bytes.
pub log_all-sections :
    (es : List Event) (content last : Bytes)
    → all_short es ≡ true
    → log_all es (some record { file = some content; last_date = last })
      ≡ some record { file = some (content ++ sections last es); last_date = final_date last es }
unfolding log_all
log_all-sections [] content last h =
    ap (λ (t : Bytes). some (record { file = some t; last_date = last })) (sym (append-nil content))
log_all-sections (e ∷ es) content last h =
    let short : length e.date ≤ 15 =
      leb→le (length e.date) 15 (and_left (leb (length e.date) 15) (all_short es) h) in
    let rest : all_short es ≡ true = and_right (leb (length e.date) 15) (all_short es) h in
    ap (log_all es) (history_log_lem e (record { file = some content; last_date = last }) short)
    ∙ log_all-sections es _ e.date rest
    ∙ ap (λ (t : Bytes). some (record { file = some t; last_date = final_date e.date es }))
        (regroup content (heading_of e.date last) (entry_of e) (sections e.date es))
