-- ===== src/MdMemory.antt =====
-- memory/md_memory.c: the facts in MEMORY.md, stored, recalled and searched line by line. The files
-- are a table as in Templates, and every file in it can be read. The lock makes each operation
-- whole, so that an operation is a function on the table.
pub mod Lines
pub mod Store
pub mod Recall
pub mod Sections
pub mod Write
pub mod Limits
pub mod Migrate
pub mod Tools
use vajra_ai.Prelude.{
  ℕ, zero, suc, ◌+◌, ◌*◌, Bool, true, false, not, ◌&&◌, ◌||◌, Option, none, some, List, [], ◌∷◌,
  ◌++◌, ltb, leb, ◌==◌, if◌then◌else◌, length, take, drop,
}
use vajra_ai.CString.{Bytes, codes, equal, has_prefix, strchr, until_nul, contains_nocase}
use vajra_ai.Memory.{Fault, null_pointer, out_of_bounds, Outcome, done, fault, ◌>>=◌}
use vajra_ai.Types.{Result, result_ok, result_err, err_generic, err_io, str_trim, str_ends_with}
use vajra_ai.Files.{fgets_lines}
use vajra_ai.Templates.{set_content, FileTable, content_at}

abbrev pub max_file_size : ℕ
max_file_size = 256 * 1024

abbrev pub user_information : Bytes
user_information = codes "User Information"

abbrev pub preferences : Bytes
preferences = codes "Preferences"

abbrev pub project_context : Bytes
project_context = codes "Project Context"

abbrev pub important_notes : Bytes
important_notes = codes "Important Notes"

-- CANONICAL_SECTIONS up to its NULL.
abbrev pub canonical_sections : List Bytes
canonical_sections = user_information ∷ preferences ∷ project_context ∷ important_notes ∷ []

-- The first section that contains the category or that the category contains.
unfoldable pub matching_section : Bytes → List Bytes → Option Bytes
unfolding contains_nocase
matching_section category [] = none
matching_section category (s ∷ ss) =
    if contains_nocase s category || contains_nocase category s
    then some s
    else matching_section category ss

-- The keyword heuristics.
unfoldable pub keyword_section : Bytes → Bytes
unfolding contains_nocase
keyword_section category =
    if contains_nocase category (codes "user") || contains_nocase category (codes "person")
    then user_information
    else if contains_nocase category (codes "pref") || contains_nocase category (codes "setting")
    then preferences
    else if contains_nocase category (codes "project") || contains_nocase category (codes "task")
    then project_context
    else important_notes

abbrev pub or_keyword : Bytes → Option Bytes → Bytes
or_keyword category none = keyword_section category
or_keyword category (some s) = s

unfoldable pub canonicalise_section : Option Bytes → Bytes
unfolding matching_section keyword_section
canonicalise_section none = important_notes
canonicalise_section (some category) =
    or_keyword category (matching_section category canonical_sections)

-- The content of a file as a C string, where its size is not 0 and within the cap.
unfoldable pub capped_content : Option Bytes → Bytes
unfolding until_nul
capped_content none = []
capped_content (some content) = if ltb max_file_size (length content) then [] else until_nul content

unfoldable pub read_memory_file : Bytes → FileTable → Bytes
unfolding capped_content content_at
read_memory_file path files = capped_content (content_at files path)

-- A file that is removed.
unfoldable pub remove_file : FileTable → Bytes → FileTable
unfolding equal
remove_file [] path = []
remove_file ((p, c) ∷ files) path = if equal p path then files else (p, c) ∷ remove_file files path

-- Which paths can be opened for writing and which can be renamed over, and the text of errno.
pub record Rights : Type 0 where
  pub can_create : Bytes → Bool
  pub can_rename : Bytes → Bool
  pub strerror : Bytes → Bytes

abbrev io_message : Bytes → Bytes → Bytes → Bytes
io_message start path reason = take 1023 (start ++ (path ++ (codes ": " ++ reason)))

-- `fputs` writes up to the first NUL; the temporary file is gone after either outcome of rename().
unfoldable pub write_memory_file : Rights → Bytes → Bytes → FileTable → Result × FileTable
unfolding until_nul set_content remove_file
write_memory_file rights path content files =
    let tmp = take 519 (path ++ codes ".tmp") in
    if not (rights.can_create tmp)
    then (result_err err_io (io_message (codes "Cannot write ") tmp (rights.strerror tmp)), files)
    else if rights.can_rename path
    then (result_ok, set_content (remove_file files tmp) path (until_nul content))
    else (
      result_err err_io (io_message (codes "Cannot rename ") tmp (rights.strerror tmp)),
      remove_file files tmp,
    )

-- A byte in front of lines.
abbrev pub onto_first : ℕ → List Bytes → List Bytes
onto_first c [] = (c ∷ []) ∷ []
onto_first c (l ∷ ls) = (c ∷ l) ∷ ls

-- The walk `next = strchr(line, '\n')` over a text: its lines, each with its line feed.
unfoldable pub content_lines : Bytes → List Bytes
content_lines [] = []
content_lines (c ∷ cs) =
    let rest = content_lines cs in if c == b'\n' then (c ∷ []) ∷ rest else onto_first c rest

-- `char linebuf[2048]`, filled by the start of the line.
abbrev pub line_buffer : Bytes → Bytes
line_buffer line = take 2047 line

-- A text up to the first byte `c`.
unfoldable pub cut_at : ℕ → Bytes → Bytes
cut_at c [] = []
cut_at c (x ∷ xs) = if x == c then [] else x ∷ cut_at c xs

-- A heading as memory_store compares it, and as memory_recall does.
unfoldable pub store_heading : Bytes → Bytes
unfolding cut_at
store_heading linebuf = cut_at b'\r' (cut_at b'\n' (take 255 (drop 3 linebuf)))

unfoldable pub recall_heading : Bytes → Bytes
unfolding cut_at str_trim
recall_heading linebuf = str_trim (cut_at b'\n' (take 255 (drop 3 linebuf)))

abbrev pub is_heading : Bytes → Bool
is_heading linebuf = has_prefix linebuf (codes "## ")

abbrev pub is_bullet : Bytes → Bool
is_bullet linebuf = has_prefix linebuf (codes "- ")

-- What fits into `char existing_key[512]`, or nothing.
abbrev pub fitting_key : Bytes → Bytes
fitting_key key = if ltb (length key) 512 then key else []

-- The key and the text behind the colon of a bullet.
abbrev pub bullet_parts : Bytes → Option (Bytes × Bytes)
bullet_parts linebuf = strchr (drop 2 linebuf) b':'

unfoldable pub existing_key : Option (Bytes × Bytes) → Bytes
unfolding str_trim
existing_key none = str_trim []
existing_key (some (key, _)) = str_trim (fitting_key key)

-- `strbuf_append_len(&out, linebuf, len)`: the buffer holds 2048 bytes with its NUL.
unfoldable pub copied : Bytes → Outcome Bytes
copied line =
    if leb (length line) 2047
    then done line
    else if length line == 2048
    then done (take 2047 line ++ 0 ∷ [])
    else fault out_of_bounds

-- The variables of the loop in memory_store.
pub record StoreLoop : Type 0 where
  pub out : Bytes
  pub in_target : Bool
  pub key_written : Bool
  pub section_found : Bool

-- The bullet with a line feed behind it.
abbrev pub put_bullet : Bytes → StoreLoop → StoreLoop
put_bullet bullet s = record s { out = s.out ++ (bullet ++ b'\n' ∷ []); key_written = true }

-- A heading ends the section before it.
unfoldable pub end_section : Bytes → StoreLoop → StoreLoop
end_section bullet s = if s.in_target && not s.key_written then put_bullet bullet s else s

unfoldable pub enter_section : Bool → StoreLoop → StoreLoop
enter_section here s = record s { in_target = here; section_found = s.section_found || here }

unfoldable pub at_heading : Bytes → Bytes → Bytes → StoreLoop → StoreLoop
unfolding end_section enter_section store_heading
at_heading section bullet linebuf s =
    if is_heading linebuf
    then enter_section (equal (store_heading linebuf) section) (end_section bullet s)
    else s

-- Is this the line of the key?
unfoldable pub is_key_line : Bytes → Bytes → Bool → Bool
unfolding has_prefix existing_key equal strchr
is_key_line key linebuf in_target =
    in_target && (is_bullet linebuf && equal (existing_key (bullet_parts linebuf)) key)

unfoldable pub put_line : Bytes → StoreLoop → Outcome StoreLoop
unfolding copied
put_line line s = copied line >>= λ bytes. done (record s { out = s.out ++ bytes })

unfoldable pub keep_or_replace : Bytes → Bytes → Bytes → StoreLoop → Outcome StoreLoop
unfolding is_key_line put_line
keep_or_replace key bullet line s =
    if is_key_line key (line_buffer line) s.in_target
    then done (put_bullet bullet s)
    else put_line line s

unfoldable pub store_line : Bytes → Bytes → Bytes → Bytes → StoreLoop → Outcome StoreLoop
unfolding at_heading keep_or_replace
store_line section key bullet line s =
    keep_or_replace key bullet line (at_heading section bullet (line_buffer line) s)

unfoldable pub store_lines : Bytes → Bytes → Bytes → List Bytes → StoreLoop → Outcome StoreLoop
unfolding store_line
store_lines section key bullet [] s = done s
store_lines section key bullet (line ∷ lines) s =
    store_line section key bullet line s >>= store_lines section key bullet lines

-- The cases that remain behind the loop.
unfoldable pub store_rest : Bytes → Bytes → StoreLoop → Bytes
store_rest section bullet s =
    if s.key_written
    then s.out
    else if s.section_found
    then s.out ++ (bullet ++ b'\n' ∷ [])
    else s.out ++ (b'\n' ∷ (codes "## " ++ (section ++ b'\n' ∷ b'\n' ∷ (bullet ++ b'\n' ∷ []))))

abbrev pub before_lines : StoreLoop
before_lines = record { out = []; in_target = false; key_written = false; section_found = false }

-- The text of the file with the fact in it.
unfoldable pub stored_text : Bytes → Bytes → Bytes → Bytes → Outcome Bytes
unfolding store_lines store_rest content_lines
stored_text section key bullet content =
    store_lines section key bullet (content_lines content) before_lines >>= λ s.
    done (store_rest section bullet s)

-- snprintf(bullet, 2048, "- %s: %s", key, value)
abbrev pub bullet_of : Bytes → Bytes → Bytes
bullet_of key value = take 2047 (codes "- " ++ (key ++ (codes ": " ++ value)))

-- `memory_t`
pub record MdMemory : Type 0 where
  pub base_dir : Bytes
  pub path : Bytes

abbrev required : Result
required = result_err err_generic (codes "key and value are required")

unfoldable pub memory_store :
    Rights
    → MdMemory
    → Option Bytes
    → Option Bytes
    → Option Bytes
    → FileTable
    → Outcome (Result × FileTable)
unfolding stored_text read_memory_file canonicalise_section write_memory_file
memory_store rights mem category none value files = done (required, files)
memory_store rights mem category (some []) value files = done (required, files)
memory_store rights mem category (some (c ∷ cs)) none files = done (required, files)
memory_store rights mem category (some (c ∷ cs)) (some value) files =
    stored_text (canonicalise_section category) (c ∷ cs) (bullet_of (c ∷ cs) value)
      (read_memory_file mem.path files)
    >>= λ out. done (write_memory_file rights mem.path out files)

-- `strcmp` of the key of a bullet with a key that may be NULL, and the value that is returned.
unfoldable pub recall_bullet : Option Bytes → Option (Bytes × Bytes) → Outcome (Option Bytes)
unfolding equal str_trim
recall_bullet key none = done none
recall_bullet none (some (k, rest)) = fault null_pointer
recall_bullet (some key) (some (k, rest)) =
    done (if equal (str_trim (fitting_key k)) key then some (str_trim (take 511 rest)) else none)

-- A value ends the loop.
abbrev pub or_rest : Outcome (Option Bytes) → Option Bytes → Outcome (Option Bytes)
or_rest rest none = rest
or_rest rest (some v) = done (some v)

unfoldable pub recall_lines : Bytes → Option Bytes → List Bytes → Bool → Outcome (Option Bytes)
unfolding recall_bullet recall_heading
recall_lines section key [] in_target = done none
recall_lines section key (line ∷ lines) in_target =
    let linebuf = line_buffer line in
    let entered = recall_lines section key lines (equal (recall_heading linebuf) section) in
    let rest = recall_lines section key lines in_target in
    if is_heading linebuf
    then entered
    else if in_target && is_bullet linebuf
    then recall_bullet key (bullet_parts linebuf) >>= or_rest rest
    else rest

unfoldable pub memory_recall :
    MdMemory → Option Bytes → Option Bytes → FileTable → Outcome (Option Bytes)
unfolding recall_lines read_memory_file canonicalise_section content_lines
memory_recall mem category key files =
    recall_lines (canonicalise_section category) key
      (content_lines (read_memory_file mem.path files)) false

-- The text in front of the first match.
abbrev results_for : Bytes → ℕ → Bytes
results_for query zero = codes "Results for \"" ++ (query ++ codes "\":\n\n")
results_for query (suc _) = []

abbrev found_line : Bytes → ℕ → Bytes → Outcome Bytes → Outcome Bytes
found_line query matches line rest = copied line >>= λ bytes.
    rest >>= λ later. done (results_for query matches ++ (codes "  " ++ (bytes ++ later)))

-- What the loop adds to the buffer, and the line for no match.
unfoldable pub search_lines : Bytes → List Bytes → ℕ → Outcome Bytes
unfolding contains_nocase copied
search_lines query [] zero = done (codes "No memories matching \"" ++ (query ++ codes "\"."))
search_lines query [] (suc _) = done []
search_lines query (line ∷ lines) matches =
    let found = found_line query matches line (search_lines query lines (suc matches)) in
    let rest = search_lines query lines matches in
    if contains_nocase (line_buffer line) query then found else rest

-- `strdup(sb.data)` ends at the first NUL.
unfoldable pub memory_search : MdMemory → Bytes → FileTable → Outcome Bytes
unfolding search_lines read_memory_file content_lines until_nul
memory_search mem query files =
    search_lines query (content_lines (read_memory_file mem.path files)) 0 >>= λ text.
    done (until_nul text)

unfoldable pub memory_get_context : MdMemory → FileTable → Bytes
unfolding read_memory_file
memory_get_context mem files =
    codes "## Persistent Memory\n"
    ++ (codes "Below is your long-term memory. Use memory_store to update it, "
        ++ (codes "memory_recall to look up a specific fact.\n\n"
            ++ read_memory_file mem.path files))

abbrev pub initial_text : Bytes
initial_text =
    codes "# Long-term Memory\n\n"
    ++ (codes "This file stores important information that should persist across sessions.\n\n"
        ++ (codes "## User Information\n\n"
            ++ (codes "## Preferences\n\n"
                ++ (codes "## Project Context\n\n" ++ codes "## Important Notes\n"))))

unfoldable pub create_initial_memory : Rights → Bytes → FileTable → FileTable
unfolding set_content
create_initial_memory rights path files =
    if rights.can_create path then set_content files path initial_text else files

-- The lines that fgets(line, 1024, f) yields, appended.
unfoldable pub joined : List Bytes → Bytes
joined [] = []
joined (l ∷ ls) = l ++ joined ls

-- A legacy file that can be opened: its text is stored under its name, and the file is removed
-- whatever memory_store has returned.
unfoldable pub migrate_content :
    Rights → MdMemory → Bytes → Bytes → Option Bytes → FileTable → Outcome FileTable
unfolding memory_store remove_file joined fgets_lines
migrate_content rights mem name path none files = done files
migrate_content rights mem name path (some content) files =
    let text = joined (fgets_lines 1023 content) in
    if ltb 0 (length text)
    then (memory_store rights mem (some important_notes) (some name) (some text) files >>= λ r.
        done (remove_file r.1 path))
    else done (remove_file files path)

unfoldable pub migrate_file : Rights → MdMemory → Bytes → FileTable → Outcome FileTable
unfolding migrate_content content_at str_ends_with equal
migrate_file rights mem name files =
    if str_ends_with (some name) (some (codes ".md")) && not (equal name (codes "MEMORY.md"))
    then (let path = take 511 (mem.base_dir ++ b'/' ∷ name) in
        migrate_content rights mem name path (content_at files path) files)
    else done files

-- The names that readdir() yields, in their order.
unfoldable pub migrate_legacy_files : Rights → MdMemory → List Bytes → FileTable → Outcome FileTable
unfolding migrate_file
migrate_legacy_files rights mem [] files = done files
migrate_legacy_files rights mem (name ∷ names) files =
    migrate_file rights mem name files >>= migrate_legacy_files rights mem names

abbrev dir_or_memory : Option Bytes → Bytes
dir_or_memory none = codes "memory"
dir_or_memory (some dir) = dir

unfoldable pub memory_at : Option Bytes → MdMemory
memory_at base_dir = record {
  base_dir = dir_or_memory base_dir;
  path = take 511 (dir_or_memory base_dir ++ codes "/MEMORY.md");
}

-- A file that is there is left alone.
unfoldable pub ensure_memory : Rights → Bytes → Option Bytes → FileTable → FileTable
unfolding create_initial_memory
ensure_memory rights path (some _) files = files
ensure_memory rights path none files = create_initial_memory rights path files

unfoldable pub memory_create :
    Rights → Option Bytes → List Bytes → FileTable → Outcome (MdMemory × FileTable)
unfolding memory_at ensure_memory migrate_legacy_files content_at
memory_create rights base_dir names files =
    let mem = memory_at base_dir in
    migrate_legacy_files rights mem names
      (ensure_memory rights mem.path (content_at files mem.path) files)
    >>= λ files'. done (mem, files')
