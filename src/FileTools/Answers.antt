-- ===== src/FileTools/Answers.antt =====
-- tools/file_ops/file_tool.c: the answers of the file tools, and the search through directories.
-- The calls of the file system are a record of operations on an arbitrary world.
use vajra_ai.Prelude.{
  ℕ, zero, suc, Bool, false, ◌||◌, Option, none, some, List, [], ◌∷◌, ◌++◌, ◌==◌, if◌then◌else◌,
  take,
}
use vajra_ai.CString.{Bytes, codes, equal, until_nul, contains_nocase}
use vajra_ai.Cjson.{Cjson}
use vajra_ai.Types.{sanitize_output}

-- The result of a call of the system: the text of its error, or a value.
pub data Io (A : Type 0) : Type 0 where
  io_error : Bytes → Io A
  io_ok : A → Io A

-- What stat() tells of a path.
pub record FileStat : Type 0 where
  pub is_dir : Bool
  pub st_size : ℕ

-- The calls of the system. `read_file` opens a file and gives the bytes that fread() finds in it,
-- `write_file` opens it for writing and gives the count of bytes written.
pub record FileSystem (W : Type 0) : Type 0 where
  pub stat : Bytes → W → Io FileStat
  pub read_file : Bytes → W → Io Bytes
  pub write_file : Bytes → Bytes → W → Io ℕ × W
  pub list_dir : Bytes → W → Io (List Bytes)
  pub unlink : Bytes → W → Option Bytes × W

-- snprintf into `full_path[1024]`
abbrev pub join_path : Bytes → Bytes → Bytes
join_path dir name = take 1023 (dir ++ b'/' ∷ name)

abbrev is_hidden : Bytes → Bool
is_hidden [] = false
is_hidden (c ∷ cs) = c == b'.'

module _ {J : Type 0} (cj : Cjson J) where
  -- {"error": strerror(errno)}
  unfoldable pub errno_json : Bytes → Option Bytes
  errno_json text = cj.print (cj.add_string cj.create_object (codes "error") text)

  unfoldable pub read_result : Bytes → ℕ → Io Bytes → Option Bytes
  unfolding errno_json sanitize_output until_nul
  read_result path size (io_error text) = errno_json text
  read_result path size (io_ok bytes) =
      let with_path = cj.add_string cj.create_object (codes "path") path in
      let with_size = cj.add_number with_path (codes "size") size in
      cj.print (
        cj.add_string with_size (codes "content")
          (sanitize_output (some (until_nul (take size bytes)))))

  unfoldable pub write_result : Bytes → Io ℕ → Option Bytes
  unfolding errno_json
  write_result path (io_error text) = errno_json text
  write_result path (io_ok written) =
      let status = cj.add_string cj.create_object (codes "status") (codes "written") in
      let with_path = cj.add_string status (codes "path") path in
      cj.print (cj.add_number with_path (codes "bytes_written") written)

  unfoldable pub delete_result : Bytes → Option Bytes → Option Bytes
  unfolding errno_json
  delete_result path (some text) = errno_json text
  delete_result path none =
      let status = cj.add_string cj.create_object (codes "status") (codes "deleted") in
      cj.print (cj.add_string status (codes "path") path)

  -- The type and the size of one entry of a list, where stat() succeeds.
  unfoldable pub add_stat : J → Io FileStat → J
  add_stat item (io_error _) = item
  add_stat item (io_ok st) =
      if st.is_dir
      then cj.add_string item (codes "type") (codes "directory")
      else cj.add_number (cj.add_string item (codes "type") (codes "file")) (codes "size")
          st.st_size

  -- The loop over the entries of a directory, without . and ..
  unfoldable pub list_items : {W : Type 0} → FileSystem W → W → Bytes → J → List Bytes → J
  unfolding add_stat equal
  list_items fs w dir entries [] = entries
  list_items fs w dir entries (name ∷ names) =
      let item =
        add_stat (cj.add_string cj.create_object (codes "name") name)
          (fs.stat (join_path dir name) w) in
      let more =
        if equal name (codes ".") || equal name (codes "..")
        then entries
        else cj.add_to_array entries item in
      list_items fs w dir more names

  unfoldable pub list_result :
      {W : Type 0} → FileSystem W → W → Bytes → Io (List Bytes) → Option Bytes
  unfolding errno_json list_items
  list_result fs w path (io_error text) = errno_json text
  list_result fs w path (io_ok names) = cj.print (
      cj.add_item (cj.add_string cj.create_object (codes "path") path) (codes "entries")
        (list_items fs w path cj.create_array names))

  -- One entry of a directory that is searched; `deeper` searches a directory one level down.
  unfoldable pub search_entry : (Bytes → J → J) → Bytes → Bytes → Bytes → J → Io FileStat → J
  unfolding contains_nocase
  search_entry deeper pattern full_path name results (io_error _) = results
  search_entry deeper pattern full_path name results (io_ok st) =
      if st.is_dir
      then deeper full_path results
      else if contains_nocase name pattern
      then cj.add_to_array results (cj.create_string full_path)
      else results

  unfoldable pub search_names :
      {W : Type 0} → FileSystem W → W → (Bytes → J → J) → Bytes → Bytes → J → List Bytes → J
  unfolding search_entry
  search_names fs w deeper pattern dir results [] = results
  search_names fs w deeper pattern dir results (name ∷ names) =
      let full_path = join_path dir name in
      let more =
        if is_hidden name
        then results
        else search_entry deeper pattern full_path name results (fs.stat full_path w) in
      search_names fs w deeper pattern dir more names

  unfoldable pub search_opened :
      {W : Type 0} → FileSystem W → W → (Bytes → J → J) → Bytes → Bytes → J → Io (List Bytes) → J
  unfolding search_names
  search_opened fs w deeper pattern dir results (io_error _) = results
  search_opened fs w deeper pattern dir results (io_ok names) =
      search_names fs w deeper pattern dir results names

  -- `search_recursive`, on the levels that are left below the depth 5.
  unfoldable pub search_recursive : {W : Type 0} → FileSystem W → W → Bytes → ℕ → Bytes → J → J
  unfolding search_opened
  search_recursive fs w pattern zero dir results = results
  search_recursive fs w pattern (suc levels) dir results =
      search_opened fs w (search_recursive fs w pattern levels) pattern dir results
        (fs.list_dir dir w)

  unfoldable pub search_result : {W : Type 0} → FileSystem W → W → Bytes → Bytes → Option Bytes
  unfolding search_recursive
  search_result fs w path pattern = cj.print (
      cj.add_item (cj.add_string cj.create_object (codes "pattern") pattern) (codes "matches")
        (search_recursive fs w pattern 6 path cj.create_array))
