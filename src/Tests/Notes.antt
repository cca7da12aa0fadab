-- ===== src/Tests/Notes.antt =====
-- memory/md_memory.c
use vajra_ai.Prelude.{
  ℕ, zero, suc, ◌+◌, ◌≤◌, ◌≡◌, refl, true, false, some, none, [], ◌∷◌, arith, length,
}
use vajra_ai.CString.{
  Bytes, codes, equal, until_nul, has_prefix, contains_nocase, strchr, strip_end, skip_space,
}
use vajra_ai.Memory.{done, fault, out_of_bounds}
use vajra_ai.Types.{result_ok, str_trim, str_ends_with}
use vajra_ai.Files.{fgets_lines}
use vajra_ai.Templates.{FileTable, content_at}
use vajra_ai.MdMemory.{
  Rights, MdMemory, memory_store, memory_recall, memory_search, read_memory_file, content_lines,
  canonicalise_section, remove_file, migrate_file, store_heading, recall_heading, joined,
  stored_text, max_file_size,
}
use vajra_ai.MdMemory.Lines.{FullLines, no_lines, full_line}
use vajra_ai.MdMemory.Recall.{IsFact}
use vajra_ai.MdMemory.Store.{HeadingsAgree}
use vajra_ai.MdMemory.Store.File.{new_text, memory_recall-memory_store}
use vajra_ai.MdMemory.Limits.{
  ShortLines, Returns, memory_store-Returns, memory_store-overruns, memory_store_drops,
}
use vajra_ai.MdMemory.Migrate.{migrate_file_loses}

abbrev writable : Rights
writable = record {
  can_create = λ path. true;
  can_rename = λ path. true;
  strerror = λ path. codes "no";
}

abbrev mem : MdMemory
mem = record { base_dir = codes "m"; path = codes "m/MEMORY.md" }

abbrev notes : Bytes
notes = codes "## Preferences\n- tea: black\n- milk: no\n"

abbrev files : FileTable
files = (codes "m/MEMORY.md", notes) ∷ []

store_runs :
    memory_store writable mem
      (some (codes "pref"))
      (some (codes "tea"))
      (some (codes "green"))
      files
    ≡ done
        (result_ok, (codes "m/MEMORY.md", codes "## Preferences\n- tea: green\n- milk: no\n") ∷ [])
unfolding memory_store equal has_prefix contains_nocase strchr strip_end skip_space until_nul
    remove_file content_at str_trim
store_runs = refl

-- A heading with white space behind it is the section's for memory_recall, and is not for
-- memory_store: the value from before is returned.
abbrev spaced : FileTable
spaced = (codes "m/MEMORY.md", codes "## Preferences \n- tea: black\n") ∷ []

abbrev spaced_after : FileTable
spaced_after =
    (codes "m/MEMORY.md", codes "## Preferences \n- tea: black\n\n## Preferences\n\n- tea: green\n")
    ∷ []

spaced_runs :
    memory_store writable mem
      (some (codes "pref"))
      (some (codes "tea"))
      (some (codes "green"))
      spaced
    ≡ done (result_ok, spaced_after)
unfolding memory_store equal has_prefix contains_nocase strchr strip_end skip_space until_nul
    remove_file content_at str_trim
spaced_runs = refl

spaced_recall_runs :
    memory_recall mem (some (codes "pref")) (some (codes "tea")) spaced_after
    ≡ done (some (codes "black"))
unfolding memory_recall equal has_prefix contains_nocase strchr strip_end skip_space until_nul
    content_at str_trim
spaced_recall_runs = refl

-- A file that does not end in a line feed: the fact goes onto the line of another.
unended_runs :
    memory_store writable mem
      (some (codes "pref"))
      (some (codes "tea"))
      (some (codes "green"))
      ((codes "m/MEMORY.md", codes "## Preferences\n- milk: no") ∷ [])
    ≡ done (result_ok, (codes "m/MEMORY.md", codes "## Preferences\n- milk: no- tea: green\n") ∷ [])
unfolding memory_store equal has_prefix contains_nocase strchr strip_end skip_space until_nul
    remove_file content_at str_trim
unended_runs = refl

tea : IsFact (codes "tea") (codes "green")
unfolding skip_space
tea = record {
  key_there = λ e. cc;
  key_starts = refl;
  key_ends = refl;
  key_short = omega arith;
  key_line = refl;
  key_colon = refl;
  key_nul = refl;
  value_starts = refl;
  value_ends = refl;
  value_short = omega arith;
  value_line = refl;
  value_nul = refl;
}

notes_full : FullLines (content_lines (read_memory_file mem.path files))
unfolding content_lines read_memory_file equal until_nul
notes_full = full_line (codes "## Preferences") _ refl refl (omega arith) (
    full_line (codes "- tea: black") _ refl refl (omega arith)
      (full_line (codes "- milk: no") _ refl refl (omega arith) no_lines))

abbrev section : Bytes
section = canonicalise_section (some (codes "pref"))

notes_agree : HeadingsAgree section (content_lines (read_memory_file mem.path files))
unfolding content_lines read_memory_file equal until_nul store_heading recall_heading has_prefix
    canonicalise_section contains_nocase str_trim
notes_agree = (λ h. refl, (λ h. refl, (λ h. refl, tt)))

fits :
    length (
      new_text writable mem
        (some (codes "pref"))
        (codes "tea")
        (codes "green")
        files
        tea
        refl
        refl
        notes_full
        notes_agree)
    ≤ max_file_size
unfolding memory_store stored_text equal has_prefix contains_nocase strchr str_trim until_nul
fits = omega arith

memory_recall-memory_store_example :
    (files' : FileTable) × (memory_store writable mem
        (some (codes "pref"))
        (some (codes "tea"))
        (some (codes "green"))
        files
      ≡ done (result_ok, files'))
    × (memory_recall mem (some (codes "pref")) (some (codes "tea")) files'
        ≡ done (some (codes "green")))
memory_recall-memory_store_example =
    memory_recall-memory_store writable mem (some (codes "pref")) (codes "tea") (codes "green")
      files tea refl refl notes_full notes_agree fits

short : ShortLines (content_lines (read_memory_file mem.path files))
unfolding content_lines read_memory_file equal until_nul
short = omega arith

memory_store-Returns_example :
    Returns (memory_store writable mem none (some (codes "k")) (some (codes "v")) files)
    × Returns (memory_search mem (codes "tea") files)
memory_store-Returns_example =
    memory_store-Returns writable mem none (some (codes "k")) (some (codes "v")) (codes "tea") files
      short

-- `n` bytes and then a text.
many : ℕ → Bytes → Bytes
many zero rest = rest
many (suc n) rest = b'a' ∷ many n rest

length-many : (n : ℕ) (rest : Bytes) → length (many n rest) ≡ n + length rest
unfolding many
length-many zero rest = omega arith
length-many (suc n) rest = omega (arith, length-many n rest)

long_line : Bytes
long_line = many 2048 (b'\n' ∷ [])

memory_store-overruns_example :
    memory_store writable mem none
      (some (codes "k"))
      (some (codes "v"))
      ((codes "m/MEMORY.md", long_line) ∷ [])
    ≡ fault out_of_bounds
memory_store-overruns_example =
    memory_store-overruns writable mem none b'k' [] (codes "v")
      ((codes "m/MEMORY.md", long_line) ∷ []) [] long_line []
      (unfold content_lines read_memory_file equal until_nul long_line many in refl) tt
      (unfold long_line in omega (arith, length-many 2048 (b'\n' ∷ [])))
      (unfold long_line many has_prefix in refl)

long_file : Bytes
long_file = many 262145 []

memory_store_drops_example :
    (files' : FileTable) × (memory_store writable mem none
        (some (codes "k"))
        (some (codes "v"))
        ((codes "m/MEMORY.md", long_file) ∷ [])
      ≡ done (result_ok, files'))
    × (content_at files' (codes "m/MEMORY.md")
        ≡ some (until_nul (codes "\n## Important Notes\n\n- k: v\n")))
unfolding canonicalise_section
memory_store_drops_example =
    memory_store_drops writable mem none b'k' [] (codes "v") ((codes "m/MEMORY.md", long_file) ∷ [])
      long_file refl refl (unfold content_at equal in refl)
      (unfold long_file in omega (arith, length-many 262145 []))

abbrev read_only : Rights
read_only = record writable { can_create = λ path. false }

abbrev legacy : FileTable
legacy = (codes "m/a.md", codes "x\n") ∷ files

migrate_file_loses_example :
    migrate_file read_only mem (codes "a.md") legacy ≡ done (remove_file legacy (codes "m/a.md"))
unfolding fgets_lines joined
migrate_file_loses_example =
    migrate_file_loses read_only mem (codes "a.md") (codes "x\n") legacy
      (unfold str_ends_with equal in refl) (unfold equal in refl) (unfold content_at equal in refl)
      (unfold fgets_lines joined until_nul in omega arith) refl
      (unfold content_lines read_memory_file equal until_nul in omega arith)
