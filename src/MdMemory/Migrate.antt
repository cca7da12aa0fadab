-- ===== src/MdMemory/Migrate.antt =====
-- memory/md_memory.c: the migration of legacy files.
use vajra_ai.Prelude.{
  ◌≡◌, refl, ap, ◌<◌, true, false, Option, some, [], ◌∷◌, ◌++◌, length, take, lt→ltb,
}
use vajra_ai.CString.{Bytes, codes, equal}
use vajra_ai.Memory.{done}
use vajra_ai.Types.{str_ends_with, Result}
use vajra_ai.Files.{fgets_lines}
use vajra_ai.Templates.{FileTable, content_at}
use vajra_ai.MdMemory.{
  important_notes, read_memory_file, remove_file, Rights, write_memory_file, content_lines, joined,
  MdMemory, bullet_of, canonicalise_section, memory_store, migrate_content, migrate_file,
}
use vajra_ai.MdMemory.Limits.{ShortLines, Returns-stored_text, from_Returns}

write_memory_file-unwritable :
    (rights : Rights) (path out : Bytes) (files : FileTable)
    → rights.can_create (take 519 (path ++ codes ".tmp")) ≡ false
    → write_memory_file rights path out files ≡ ((write_memory_file rights path out files).0, files)
unfolding write_memory_file
write_memory_file-unwritable rights path out files h = rw h refl

-- What cannot be written leaves the files as they are.
memory_store-unwritable :
    (rights : Rights) (mem : MdMemory) (category : Option Bytes) (key text : Bytes)
    (files : FileTable)
    → rights.can_create (take 519 (mem.path ++ codes ".tmp")) ≡ false
    → ShortLines (content_lines (read_memory_file mem.path files))
    → (r : Result) × (memory_store rights mem category (some key) (some text) files
        ≡ done (r, files))
unfolding memory_store
memory_store-unwritable rights mem category [] text files no_file h = (_, refl)
memory_store-unwritable rights mem category (c ∷ cs) text files no_file h =
    let (out, runs) = from_Returns _ (
      Returns-stored_text (canonicalise_section category) (c ∷ cs) (bullet_of (c ∷ cs) text)
        (read_memory_file mem.path files) h) in
    (
      (write_memory_file rights mem.path out files).0,
      rw runs (ap done (write_memory_file-unwritable rights mem.path out files no_file)),
    )

-- A legacy file is removed also where its text cannot be stored: if the temporary file cannot be
-- created, the migration of a file that is not empty changes nothing else, and its text is gone.
pub migrate_file_loses :
    (rights : Rights) (mem : MdMemory) (name content : Bytes) (files : FileTable)
    → str_ends_with (some name) (some (codes ".md")) ≡ true
    → equal name (codes "MEMORY.md") ≡ false
    → content_at files (take 511 (mem.base_dir ++ b'/' ∷ name)) ≡ some content
    → 0 < length (joined (fgets_lines 1023 content))
    → rights.can_create (take 519 (mem.path ++ codes ".tmp")) ≡ false
    → ShortLines (content_lines (read_memory_file mem.path files))
    → migrate_file rights mem name files
      ≡ done (remove_file files (take 511 (mem.base_dir ++ b'/' ∷ name)))
unfolding migrate_file migrate_content
migrate_file_loses rights mem name content files md other there text no_file h =
    let (r, runs) =
      memory_store-unwritable rights mem (some important_notes) name
        (joined (fgets_lines 1023 content)) files no_file h in
    rw (md, other, there, lt→ltb 0 (length (joined (fgets_lines 1023 content))) text, runs) refl
