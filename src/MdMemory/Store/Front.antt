-- ===== src/MdMemory/Store/Front.antt =====
-- memory_recall of memory/md_memory.c: one line in front of a text.
use vajra_ai.Prelude.{◌≡◌, refl, sym, ap, ◌∙◌, Bool, true, false, Option, some, List, ◌∷◌, ◌++◌, []}
use vajra_ai.CString.{Bytes, equal, has_prefix}
use vajra_ai.CString.Laws.{equal_iff}
use vajra_ai.MdMemory.{is_heading, line_buffer, recall_heading, recall_lines, content_lines}
use vajra_ai.MdMemory.Lines.{Lacks, line_of, content_lines-line_of}
use vajra_ai.MdMemory.Recall.{recall_lines-heading, recall_lines_cong, recall_lines_cong_plain}

-- One line in front of a text, as memory_recall reads it.
pub recall_front :
    (section : Bytes) (key : Option Bytes) (p tail : Bytes) (t : Bool)
    → Lacks b'\n' p
    → recall_lines section key (content_lines (line_of p ++ tail)) t
      ≡ recall_lines section key (line_of p ∷ content_lines tail) t
recall_front section key p tail t h =
    ap (λ (ls : List Bytes). recall_lines section key ls t) (content_lines-line_of p tail h)

pub recall_lines-blank :
    (section : Bytes) (key : Option Bytes) (rest : List Bytes) (t : Bool)
    → recall_lines section key (line_of [] ∷ rest) t ≡ recall_lines section key rest t
unfolding recall_lines has_prefix
recall_lines-blank section key rest true = refl
recall_lines-blank section key rest false = refl

-- A text that is one of two different ones is not the other.
pub equal_apart :
    (h section section' : Bytes)
    → equal h section ≡ true
    → equal section section' ≡ false
    → equal h section' ≡ false
equal_apart h section section' a e =
    ap (λ (x : Bytes). equal x section') ((equal_iff h section).0 a) ∙ e

-- The line itself in front of what the rest writes.
pub keeps-line :
    (section' key' p : Bytes) (ls : List Bytes) (tail : Bytes) (t : Bool)
    → Lacks b'\n' p
    → ((t' : Bool)
        → recall_lines section' (some key') (content_lines tail) t'
          ≡ recall_lines section' (some key') ls t')
    → recall_lines section' (some key') (content_lines (line_of p ++ tail)) t
      ≡ recall_lines section' (some key') (line_of p ∷ ls) t
keeps-line section' key' p ls tail t one h =
    recall_front section' (some key') p tail t one
    ∙ recall_lines_cong section' (some key') (line_of p) (content_lines tail) ls h t

-- The same for one reading: the line is no heading, or it is one.
pub keeps-plain :
    (section' key' p : Bytes) (ls : List Bytes) (tail : Bytes) (t : Bool)
    → Lacks b'\n' p
    → is_heading (line_buffer (line_of p)) ≡ false
    → recall_lines section' (some key') (content_lines tail) t
      ≡ recall_lines section' (some key') ls t
    → recall_lines section' (some key') (content_lines (line_of p ++ tail)) t
      ≡ recall_lines section' (some key') (line_of p ∷ ls) t
keeps-plain section' key' p ls tail t one plain h =
    recall_front section' (some key') p tail t one
    ∙ recall_lines_cong_plain section' (some key') (line_of p) (content_lines tail) ls t plain h

pub keeps-heading :
    (section' key' p : Bytes) (ls : List Bytes) (tail : Bytes) (t : Bool)
    → Lacks b'\n' p
    → is_heading (line_buffer (line_of p)) ≡ true
    → recall_lines section'
        (some key')
        (content_lines tail)
        (equal (recall_heading (line_buffer (line_of p))) section')
      ≡ recall_lines section'
          (some key')
          ls
          (equal (recall_heading (line_buffer (line_of p))) section')
    → recall_lines section' (some key') (content_lines (line_of p ++ tail)) t
      ≡ recall_lines section' (some key') (line_of p ∷ ls) t
keeps-heading section' key' p ls tail t one head h =
    recall_front section' (some key') p tail t one
    ∙ recall_lines-heading section' (some key') (line_of p) (content_lines tail) t head
    ∙ h
    ∙ sym (recall_lines-heading section' (some key') (line_of p) ls t head)
