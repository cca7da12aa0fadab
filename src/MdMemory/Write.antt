-- ===== src/MdMemory/Write.antt =====
-- memory/md_memory.c: writing the file and reading it back.
use vajra_ai.Prelude.{
  ◌≡◌, refl, ap, ◌∙◌, inl, inr, ◌≤◌, true, some, [], ◌∷◌, ◌++◌, length, Bool-cases, take,
  le→ltb-false,
}
use vajra_ai.CString.{Bytes, codes, equal, until_nul}
use vajra_ai.CString.Laws.{equal_refl}
use vajra_ai.Types.{result_ok}
use vajra_ai.Templates.{FileTable, content_at, set_content}
use vajra_ai.MdMemory.{
  max_file_size, read_memory_file, capped_content, remove_file, Rights, write_memory_file,
}
use vajra_ai.MdMemory.Lines.{Lacks, until_nul-eq_self}

pub content_at-set_content :
    (files : FileTable) (path text : Bytes)
    → content_at (set_content files path text) path ≡ some text
unfolding content_at set_content
content_at-set_content [] path text = rw (equal_refl path) refl
content_at-set_content ((p, c) ∷ files) path text = elim (Bool-cases (equal p path)) [
  | inl e ↦ rw e (rw e refl)
  | inr e ↦ rw e (rw e (content_at-set_content files path text))
]

-- Writing the file and reading it back.
module _ (rights : Rights) (path text : Bytes) (files : FileTable)
    (creates : rights.can_create (take 519 (path ++ codes ".tmp")) ≡ true)
    (renames : rights.can_rename path ≡ true) where
  abbrev pub written : FileTable
  written = set_content (remove_file files (take 519 (path ++ codes ".tmp"))) path (until_nul text)

  pub write_memory_file_lem : write_memory_file rights path text files ≡ (result_ok, written)
  unfolding write_memory_file
  write_memory_file_lem = rw (creates, renames) refl

  module _ (plain : Lacks 0 text) where
    pub capped_lem : length text ≤ max_file_size → capped_content (some (until_nul text)) ≡ text
    unfolding capped_content
    capped_lem fits =
        rw (until_nul-eq_self text plain)
          (rw (le→ltb-false (length text) max_file_size fits) (until_nul-eq_self text plain))

    pub read-write : length text ≤ max_file_size → read_memory_file path written ≡ text
    unfolding read_memory_file
    read-write fits =
        ap capped_content (
          content_at-set_content (remove_file files (take 519 (path ++ codes ".tmp"))) path
            (until_nul text))
        ∙ capped_lem fits
