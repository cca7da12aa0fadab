-- ===== src/MdMemory/Store/File.antt =====
-- memory_store and memory_recall of memory/md_memory.c on the file.
use vajra_ai.Prelude.{
  ◌≡◌, ◌≢◌, refl, ap, ◌∙◌, ◌≤◌, true, false, Option, some, List, [], ◌∷◌, ◌++◌, arith, length, take,
  take-eq_of_le, length-append,
}
use vajra_ai.CString.{Bytes, codes}
use vajra_ai.Memory.{Outcome, done, fault, ◌>>=◌}
use vajra_ai.Types.{Result, result_ok}
use vajra_ai.Templates.{FileTable}
use vajra_ai.MdMemory.{
  max_file_size, canonicalise_section, read_memory_file, Rights, write_memory_file, content_lines,
  before_lines, stored_text, bullet_of, MdMemory, memory_store, memory_recall, recall_lines,
}
use vajra_ai.MdMemory.Lines.{FullLines}
use vajra_ai.MdMemory.Recall.{IsFact, fact_line, fact_line_fits}
use vajra_ai.MdMemory.Store.{HeadingsAgree}
use vajra_ai.MdMemory.Write.{written, write_memory_file_lem, read-write}
use vajra_ai.MdMemory.Sections.{canonicalise_section-IsSection}
use vajra_ai.MdMemory.Store.Tail.{Stored}
use vajra_ai.MdMemory.Store.Loop.{Stored-lines}

-- The text that the outcome holds.
abbrev pub text_of : Outcome Bytes → Bytes
text_of (done text) = text
text_of (fault e) = []

abbrev store_with :
    Rights → MdMemory → Option Bytes → Bytes → FileTable → Bytes → Outcome (Result × FileTable)
store_with rights mem category key files bullet =
    stored_text (canonicalise_section category) key bullet (read_memory_file mem.path files)
    >>= λ out. done (write_memory_file rights mem.path out files)

memory_store_there :
    (rights : Rights) (mem : MdMemory) (category : Option Bytes) (key value : Bytes)
    (files : FileTable)
    → key ≢ []
    → memory_store rights mem category (some key) (some value) files
      ≡ store_with rights mem category key files (bullet_of key value)
unfolding memory_store
memory_store_there rights mem category [] value files h = absurd (h refl)
memory_store_there rights mem category (c ∷ cs) value files h = refl

bullet_of-eq : {key value : Bytes} → IsFact key value → bullet_of key value ≡ fact_line key value
bullet_of-eq {key} {value} f =
    take-eq_of_le 2047 (fact_line key value)
      (omega (arith, length-append (fact_line key value) (b'\n' ∷ []), fact_line_fits f))

module _ (rights : Rights) (mem : MdMemory) (category : Option Bytes) (key value : Bytes)
    (files : FileTable) (f : IsFact key value)
    (creates : rights.can_create (take 519 (mem.path ++ codes ".tmp")) ≡ true)
    (renames : rights.can_rename mem.path ≡ true)
    (full : FullLines (content_lines (read_memory_file mem.path files)))
    (agree : HeadingsAgree
      (canonicalise_section category)
      (content_lines (read_memory_file mem.path files))) where
  abbrev kept_lines : List Bytes
  kept_lines = content_lines (read_memory_file mem.path files)

  loop : Stored (canonicalise_section category) f kept_lines before_lines
  loop =
      Stored-lines (canonicalise_section category) f (canonicalise_section-IsSection category)
        kept_lines full agree before_lines

  stored_text_lem :
      stored_text
        (canonicalise_section category)
        key
        (fact_line key value)
        (read_memory_file mem.path files)
      ≡ done loop.tail
  unfolding stored_text
  stored_text_lem = rw loop.runs (ap done loop.writes)

  -- The text that is written.
  abbrev pub new_text : Bytes
  new_text = text_of (
      stored_text (canonicalise_section category) key (fact_line key value)
        (read_memory_file mem.path files))

  new_text-eq : new_text ≡ loop.tail
  new_text-eq = ap text_of stored_text_lem

  abbrev new_files : FileTable
  new_files = written rights mem.path loop.tail files creates renames

  store_runs :
      memory_store rights mem category (some key) (some value) files ≡ done (result_ok, new_files)
  store_runs =
      memory_store_there rights mem category key value files f.key_there
      ∙ ap (λ (b : Bytes). store_with rights mem category key files b) (bullet_of-eq f)
      ∙ ap (λ (o : Outcome Bytes). o >>= λ out. done (write_memory_file rights mem.path out files))
          stored_text_lem
      ∙ ap done (write_memory_file_lem rights mem.path loop.tail files creates renames)

  recall_runs :
      (fits : length new_text ≤ max_file_size) (category' : Option Bytes) (key' : Option Bytes)
      → memory_recall mem category' key' new_files
        ≡ recall_lines (canonicalise_section category') key' (content_lines loop.tail) false
  unfolding memory_recall
  recall_runs fits category' key' =
      ap (λ (t : Bytes). recall_lines (canonicalise_section category') key' (content_lines t) false)
        (read-write rights mem.path loop.tail files creates renames loop.no_nul
          (rw new_text-eq at fits))

  -- A fact that is stored is recalled, whatever the file held: after memory_store of a key and a
  -- value that a bullet can hold, memory_recall of the key in the same category returns the value. The
  -- lines of the file are at most 2047 bytes long and end in a line feed, the two functions agree on
  -- its headings, the new text is within the cap, and the file can be written.
  pub memory_recall-memory_store :
      length new_text ≤ max_file_size
      → (files' : FileTable) × (memory_store rights mem category (some key) (some value) files
          ≡ done (result_ok, files'))
        × (memory_recall mem category (some key) files' ≡ done (some value))
  memory_recall-memory_store fits =
      (new_files, store_runs, recall_runs fits category (some key) ∙ loop.hits refl refl)
