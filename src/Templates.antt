-- ===== src/Templates.antt =====
-- core/templates.c: the files of a workspace, seeded from the templates where they are missing. The
-- files are an association list from paths to contents; which paths can be created is a parameter.
pub mod Keep
use vajra_ai.Prelude.{
  Bool, true, false, Option, none, some, List, [], ◌∷◌, ◌++◌, if◌then◌else◌, take,
}
use vajra_ai.CString.{Bytes, codes, equal}

abbrev pub FileTable : Type 0
FileTable = List (Bytes × Bytes)

-- What a path holds; `file_exists` asks whether it holds something.
unfoldable pub content_at : FileTable → Bytes → Option Bytes
unfolding equal
content_at [] path = none
content_at ((p, c) ∷ files) path = if equal p path then some c else content_at files path

-- A file that is opened with "w" and written: what it held before is gone.
unfoldable pub set_content : FileTable → Bytes → Bytes → FileTable
unfolding equal
set_content [] path content = (path, content) ∷ []
set_content ((p, c) ∷ files) path content =
    if equal p path then (p, content) ∷ files else (p, c) ∷ set_content files path content

-- The part of `copy_if_missing` behind the opening of the source.
unfoldable pub copy_content : (Bytes → Bool) → Bytes → Option Bytes → FileTable → FileTable
unfolding set_content
copy_content can_create dst none files = files
copy_content can_create dst (some content) files =
    if can_create dst then set_content files dst content else files

unfoldable pub copy_missing : (Bytes → Bool) → Bytes → Bytes → Option Bytes → FileTable → FileTable
unfolding copy_content content_at
copy_missing can_create src dst (some _) files = files
copy_missing can_create src dst none files =
    copy_content can_create dst (content_at files src) files

unfoldable pub copy_if_missing : (Bytes → Bool) → Bytes → Bytes → FileTable → FileTable
unfolding copy_missing content_at
copy_if_missing can_create src dst files =
    copy_missing can_create src dst (content_at files dst) files

-- A directory that is NULL or empty is replaced.
unfoldable pub dir_or : Bytes → Option Bytes → Bytes
dir_or default (some (c ∷ cs)) = c ∷ cs
dir_or default _ = default

-- snprintf(path, 512, "%s/%s", dir, name)
abbrev pub path_in : Bytes → Bytes → Bytes
path_in dir name = take 511 (dir ++ b'/' ∷ name)

-- The names that are copied, in their order; the directory of the last is made by `ensure_dir`.
abbrev pub seeded_names : List Bytes
seeded_names = codes "SOUL.md" ∷ codes "AGENT.md" ∷ codes "TOOLS.md" ∷ codes "memory/MEMORY.md" ∷ []

unfoldable pub seed_names : (Bytes → Bool) → Bytes → Bytes → List Bytes → FileTable → FileTable
unfolding copy_if_missing
seed_names can_create template_dir workspace_dir [] files = files
seed_names can_create template_dir workspace_dir (name ∷ names) files =
    seed_names can_create template_dir workspace_dir names
      (copy_if_missing can_create (path_in template_dir name) (path_in workspace_dir name) files)

unfoldable pub templates_seed : (Bytes → Bool) → Option Bytes → Option Bytes → FileTable → FileTable
unfolding seed_names dir_or
templates_seed can_create template_dir workspace_dir files =
    seed_names can_create (dir_or (codes "templates") template_dir)
      (dir_or (codes ".") workspace_dir) seeded_names files
