-- ===== src/MdMemory/Store/Tail.antt =====
-- memory_store of memory/md_memory.c: the text that the rest of the loop writes.
use vajra_ai.Prelude.{
  ◌≡◌, refl, sym, ap, ◌∙◌, inl, inr, Bool, true, false, Option, none, some, List, [], ◌∷◌, ◌++◌,
  Bool-cases, append_assoc, append-nil,
}
use vajra_ai.CString.{Bytes, codes, equal, has_prefix}
use vajra_ai.Memory.{done}
use vajra_ai.MdMemory.{
  line_buffer, recall_heading, StoreLoop, store_line, store_lines, store_rest, recall_lines,
  content_lines,
}
use vajra_ai.MdMemory.Lines.{Lacks, Lacks-append, line_of}
use vajra_ai.MdMemory.Recall.{
  IsFact, fact_line, recall_lines-fact, recall_lines-other, recall_lines-heading, Lacks-fact_line,
}
use vajra_ai.MdMemory.Store.{IsSection}
use vajra_ai.MdMemory.Store.Front.{recall_front, recall_lines-blank, equal_apart}

module _ (section : Bytes) {key value : Bytes} (f : IsFact key value) where
  abbrev bullet : Bytes
  bullet = fact_line key value

  -- The loop from a state on ends, and it and the code behind it write a tail behind what is
  -- written. If the fact is not written, memory_recall finds it in the tail; for every other key it
  -- finds there what it finds in the lines.
  pub record Stored (ls : List Bytes) (s : StoreLoop) : Type 0 where
    pub tail : Bytes
    pub last : StoreLoop
    pub runs : store_lines section key bullet ls s ≡ done last
    pub writes : store_rest section bullet last ≡ s.out ++ tail
    pub no_nul : Lacks 0 tail
    pub hits :
        s.key_written ≡ false
        → s.section_found ≡ s.in_target
        → recall_lines section (some key) (content_lines tail) s.in_target ≡ done (some value)
    pub keeps :
        (section' key' : Bytes)
        → equal key key' ≡ false
        → (t : Bool)
        → recall_lines section' (some key') (content_lines tail) t
          ≡ recall_lines section' (some key') ls t
    -- In another section every key is recalled as before, if the two readings are not both inside
    -- their sections.
    pub keeps_section :
        (section' key' : Bytes)
        → equal section section' ≡ false
        → (t : Bool) → (t ≡ true → s.in_target ≡ false)
        → (s.key_written ≡ false → s.section_found ≡ s.in_target)
        → recall_lines section' (some key') (content_lines tail) t
          ≡ recall_lines section' (some key') ls t

  bullet_line : Lacks b'\n' bullet
  bullet_line = Lacks-fact_line f b'\n' refl refl f.key_line f.value_line

  pub bullet_nul : Lacks 0 (line_of bullet)
  bullet_nul =
      Lacks-append 0 bullet (b'\n' ∷ []) (Lacks-fact_line f 0 refl refl f.key_nul f.value_nul) refl

  pub hits-bullet :
      (tail : Bytes)
      → recall_lines section (some key) (content_lines (line_of bullet ++ tail)) true
        ≡ done (some value)
  hits-bullet tail =
      recall_front section (some key) bullet tail true bullet_line
      ∙ recall_lines-fact f section (content_lines tail)

  pub keeps-bullet :
      (section' key' tail : Bytes) (t : Bool)
      → equal key key' ≡ false
      → recall_lines section' (some key') (content_lines (line_of bullet ++ tail)) t
        ≡ recall_lines section' (some key') (content_lines tail) t
  keeps-bullet section' key' tail t e =
      recall_front section' (some key') bullet tail t bullet_line
      ∙ recall_lines-other f section' key' (content_lines tail) t e

  -- A bullet outside of the section that is read.
  pub outside-bullet :
      (section' key' tail : Bytes)
      → recall_lines section' (some key') (content_lines (line_of bullet ++ tail)) false
        ≡ recall_lines section' (some key') (content_lines tail) false
  unfolding recall_lines has_prefix
  outside-bullet section' key' tail =
      recall_front section' (some key') bullet tail false bullet_line

  -- The end of the file.
  whole_last :
      (section' : Bytes) (key' : Option Bytes) (t : Bool)
      → recall_lines section' key' (content_lines (line_of bullet)) t
        ≡ recall_lines section' key' (content_lines (line_of bullet ++ [])) t
  whole_last section' key' t =
      ap (λ (x : Bytes). recall_lines section' key' (content_lines x) t)
        (sym (append-nil (line_of bullet)))

  hits-last :
      recall_lines section (some key) (content_lines (line_of bullet)) true ≡ done (some value)
  hits-last = whole_last section (some key) true ∙ hits-bullet []

  keeps-last :
      (section' key' : Bytes) (t : Bool)
      → equal key key' ≡ false
      → recall_lines section' (some key') (content_lines (line_of bullet)) t ≡ done none
  unfolding recall_lines content_lines
  keeps-last section' key' t e =
      whole_last section' (some key') t ∙ keeps-bullet section' key' [] t e

  outside-last :
      (section' key' : Bytes)
      → recall_lines section' (some key') (content_lines (line_of bullet)) false ≡ done none
  unfolding recall_lines content_lines
  outside-last section' key' =
      whole_last section' (some key') false ∙ outside-bullet section' key' []

  abbrev new_section : Bytes
  new_section = b'\n' ∷ (codes "## " ++ (section ++ b'\n' ∷ b'\n' ∷ line_of bullet))

  module _ (sec : IsSection section) where
    abbrev heading : Bytes
    heading = codes "## " ++ section

    new_section_parts :
        new_section ≡ line_of [] ++ (line_of heading ++ (line_of [] ++ (line_of bullet ++ [])))
    new_section_parts =
        ap (λ (t : Bytes). b'\n' ∷ (codes "## " ++ t))
          (ap (λ (t : Bytes). section ++ b'\n' ∷ b'\n' ∷ t) (sym (append-nil (line_of bullet)))
            ∙ sym (append_assoc section (b'\n' ∷ []) (line_of [] ++ (line_of bullet ++ []))))

    -- Both readings of the new section: the heading is the section's, or it is not.
    recall_new :
        (section' : Bytes) (key' : Option Bytes) (t : Bool)
        → recall_lines section' key' (content_lines new_section) t
          ≡ recall_lines section' key'
              (content_lines (line_of bullet ++ []))
              (equal (recall_heading (line_buffer (line_of heading))) section')
    recall_new section' key' t =
        ap (λ (x : Bytes). recall_lines section' key' (content_lines x) t) new_section_parts
        ∙ recall_front section' key' [] _ t refl
        ∙ recall_lines-blank section' key' _ t
        ∙ recall_front section' key' heading _ t
            (Lacks-append b'\n' (codes "## ") section refl sec.one_line)
        ∙ recall_lines-heading section' key' (line_of heading) _ t (unfold has_prefix in refl)
        ∙ recall_front section' key' [] _ _ refl
        ∙ recall_lines-blank section' key' _ _

    hits-new : recall_lines section (some key) (content_lines new_section) false ≡ done (some value)
    hits-new =
        recall_new section (some key) false
        ∙ ap (recall_lines section (some key) (content_lines (line_of bullet ++ []))) sec.reads
        ∙ hits-bullet []

    keeps-new :
        (section' key' : Bytes) (t : Bool)
        → equal key key' ≡ false
        → recall_lines section' (some key') (content_lines new_section) t ≡ done none
    unfolding recall_lines content_lines
    keeps-new section' key' t e =
        recall_new section' (some key') t ∙ keeps-bullet section' key' [] _ e

    outside-new :
        (section' key' : Bytes) (t : Bool)
        → equal section section' ≡ false
        → recall_lines section' (some key') (content_lines new_section) t ≡ done none
    unfolding recall_lines content_lines
    outside-new section' key' t e =
        recall_new section' (some key') t
        ∙ ap (recall_lines section' (some key') (content_lines (line_of bullet ++ [])))
            (equal_apart _ section section' sec.reads e)
        ∙ outside-bullet section' key' []

    nul-new : Lacks 0 new_section
    nul-new = Lacks-append 0 section (b'\n' ∷ b'\n' ∷ line_of bullet) sec.no_nul bullet_nul

    -- The lines are at their end.
    pub Stored-nil : (s : StoreLoop) → Stored [] s
    unfolding store_lines store_rest recall_lines content_lines
    Stored-nil s = elim (Bool-cases s.key_written) [
      | inl w ↦ record {
        tail = [];
        last = s;
        runs = refl;
        writes = rw w (sym (append-nil s.out));
        no_nul = refl;
        hits = λ n g. absurd (let bad : true ≡ false = sym w ∙ n in cc);
        keeps = λ section' key' e t. refl;
        keeps_section = λ section' key' e t out is. refl;
      }
      | inr n ↦ elim (Bool-cases s.section_found) [
        | inl g ↦ record {
          tail = line_of bullet;
          last = s;
          runs = refl;
          writes = rw (n, g) refl;
          no_nul = bullet_nul;
          hits = λ n' same. rw (sym same ∙ g) hits-last;
          keeps = λ section' key' e t. keeps-last section' key' t e;
          keeps_section = λ section' key' e t out is. elim (Bool-cases t) [
            | inl inside ↦ absurd (let a = is n in let b = out inside in cc)
            | inr outside ↦ rw outside (outside-last section' key')
          ];
        }
        | inr g ↦ record {
          tail = new_section;
          last = s;
          runs = refl;
          writes = rw (n, g) refl;
          no_nul = nul-new;
          hits = λ n' same. rw (sym same ∙ g) hits-new;
          keeps = λ section' key' e t. keeps-new section' key' t e;
          keeps_section = λ section' key' e t out is. outside-new section' key' t e;
        }
      ]
    ]

  -- One step in front of the rest: what it writes stands before the rest's tail.
  pub Stored-cons :
      (l pre : Bytes) (ls : List Bytes) (s s' : StoreLoop)
      → store_line section key bullet l s ≡ done s'
      → s'.out ≡ s.out ++ pre
      → Lacks 0 pre
      → (rest : Stored ls s')
      → (s.key_written ≡ false
          → s.section_found ≡ s.in_target
          → recall_lines section (some key) (content_lines (pre ++ rest.tail)) s.in_target
            ≡ done (some value))
      → ((section' key' : Bytes)
          → equal key key' ≡ false
          → (t : Bool)
          → recall_lines section' (some key') (content_lines (pre ++ rest.tail)) t
            ≡ recall_lines section' (some key') (l ∷ ls) t)
      → ((section' key' : Bytes)
          → equal section section' ≡ false
          → (t : Bool) → (t ≡ true → s.in_target ≡ false)
          → (s.key_written ≡ false → s.section_found ≡ s.in_target)
          → recall_lines section' (some key') (content_lines (pre ++ rest.tail)) t
            ≡ recall_lines section' (some key') (l ∷ ls) t)
      → Stored (l ∷ ls) s
  unfolding store_lines
  Stored-cons l pre ls s s' step out nul rest hits keeps others = record {
    tail = pre ++ rest.tail;
    last = rest.last;
    runs = rw step rest.runs;
    writes =
        rest.writes ∙ ap (λ (t : Bytes). t ++ rest.tail) out ∙ append_assoc s.out pre rest.tail;
    no_nul = Lacks-append 0 pre rest.tail nul rest.no_nul;
    hits = hits;
    keeps = keeps;
    keeps_section = others;
  }
