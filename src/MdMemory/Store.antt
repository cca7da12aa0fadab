-- ===== src/MdMemory/Store.antt =====
-- memory_store of memory/md_memory.c: the loop over the lines, and what memory_recall reads of the
-- text that it leaves.
pub mod Front
pub mod Tail
pub mod Loop
pub mod File
use vajra_ai.Prelude.{
  ◌≡◌, ◌≢◌, refl, sym, ap, ◌∙◌, inl, inr, ℕ, ◌≤◌, Bool, true, false, not, ◌&&◌, ◌||◌, Option, none,
  some, List, [], ◌∷◌, ◌++◌, arith, ◌==◌, if◌then◌else◌, length, Bool-cases, append_assoc,
  append-nil, take-eq_of_le, le→leb,
}
use vajra_ai.CString.{Bytes, codes, equal, has_prefix}
use vajra_ai.Memory.{Outcome, done, ◌>>=◌}
use vajra_ai.MdMemory.{
  line_buffer, is_heading, is_bullet, is_key_line, store_heading, recall_heading, copied, StoreLoop,
  put_bullet, end_section, enter_section, at_heading, keep_or_replace, put_line, store_line,
  store_lines, store_rest, recall_lines, content_lines,
}
use vajra_ai.MdMemory.Lines.{
  Lacks, Lacks-append, line_of, content_lines-line_of, FullLines, no_lines, full_line,
}
use vajra_ai.MdMemory.Recall.{
  IsFact, fact_line, recall_lines-fact, recall_lines-other, recall_lines-heading, recall_lines_cong,
  recall_lines-skip, is_key_line-other, Lacks-fact_line,
}

-- memory_store and memory_recall see the same headings as the section's.
abbrev pub HeadingsAgree : Bytes → List Bytes → Type 0
HeadingsAgree section [] = Unit {0}
HeadingsAgree section (l ∷ ls) =
    (is_heading l ≡ true → equal (store_heading l) section ≡ equal (recall_heading l) section)
    × HeadingsAgree section ls

-- A section whose heading stands on one line and is read back as it is written.
pub record IsSection (section : Bytes) : Type 0 where
  pub one_line : Lacks b'\n' section
  pub no_nul : Lacks 0 section
  pub reads : equal (recall_heading (line_buffer (line_of (codes "## " ++ section)))) section ≡ true

pub heading-not-bullet : (l : Bytes) → is_heading l ≡ true → is_bullet l ≡ false
unfolding has_prefix
heading-not-bullet [] h = cc
heading-not-bullet (c ∷ cs) h = ground arith

pub not-key_line : (key l : Bytes) (t : Bool) → is_bullet l ≡ false → is_key_line key l t ≡ false
unfolding is_key_line
not-key_line key l true h = rw h refl
not-key_line key l false h = refl

-- A line on which the bullet stands is in the section.
pub key_line-in_target : (key l : Bytes) (t : Bool) → is_key_line key l t ≡ true → t ≡ true
unfolding is_key_line
key_line-in_target key l t h = ground arith

-- Also a line that begins with "- " is no heading.
pub key_line-not-heading :
    (key l : Bytes) (t : Bool) → is_key_line key l t ≡ true → is_heading l ≡ false
key_line-not-heading key l t h = elim (Bool-cases (is_heading l)) [
  | inl e ↦ absurd (let no_key = not-key_line key l t (heading-not-bullet l e) in cc)
  | inr e ↦ e
]

module _ (section key bullet l : Bytes) (fits : length l ≤ 2047) where
  pub buffer_whole : line_buffer l ≡ l
  buffer_whole = take-eq_of_le 2047 l fits

  abbrev pub entered : StoreLoop → StoreLoop
  entered s = enter_section (equal (store_heading l) section) (end_section bullet s)

  pub store_line-heading :
      (s : StoreLoop)
      → is_heading l ≡ true
      → store_line section key bullet l s ≡ done (record (entered s) { out = (entered s).out ++ l })
  unfolding store_line at_heading keep_or_replace put_line
  store_line-heading s h =
      rw
        (
          buffer_whole,
          h,
          not-key_line key l (entered s).in_target (heading-not-bullet l h),
          le→leb (length l) 2047 fits,
        )
        refl

  pub store_line-key :
      (s : StoreLoop)
      → is_heading l ≡ false
      → is_key_line key l s.in_target ≡ true
      → store_line section key bullet l s ≡ done (put_bullet bullet s)
  unfolding store_line at_heading keep_or_replace
  store_line-key s h k = rw (buffer_whole, h, k) refl

  pub store_line-keep :
      (s : StoreLoop)
      → is_heading l ≡ false
      → is_key_line key l s.in_target ≡ false
      → store_line section key bullet l s ≡ done (record s { out = s.out ++ l })
  unfolding store_line at_heading keep_or_replace put_line
  store_line-keep s h k = rw (buffer_whole, h, k, le→leb (length l) 2047 fits) refl
