-- ===== src/FileTools.antt =====
-- tools/file_ops/file_tool.c: the five file tools, with the path rules of the allowlist.
pub mod Answers
pub mod Gate
pub mod Register
use vajra_ai.Prelude.{
  ℕ, zero, suc, ◌+◌, ◌*◌, ◌^◌, Bool, true, false, not, ◌&&◌, ◌||◌, Option, none, some, List, [],
  ◌∷◌, ◌++◌, ltb, ◌==◌, if◌then◌else◌, length, take,
}
use vajra_ai.CString.{Bytes, codes, equal, until_nul}
use vajra_ai.Cjson.{Cjson, string_arg, error_json}
use vajra_ai.Types.{sanitize_output}
use vajra_ai.Allowlist.{Allowlist, acl_path, allowlist_is_enabled, allowlist_check}
use vajra_ai.FileTools.Answers.{
  Io, io_error, io_ok, FileStat, FileSystem, errno_json, read_result, write_result, delete_result,
  list_result, search_result,
}

abbrev pub max_file_size : ℕ
max_file_size = 10 * 1024 * 1024

-- `fnmatch` is the parameter of the allowlist.
unfoldable pub check_path : (Bytes → Bytes → Bool) → Option Allowlist → Bytes → Bool
check_path fnmatch none path = true
check_path fnmatch (some al) path =
    not (allowlist_is_enabled al acl_path) || allowlist_check fnmatch al acl_path path

-- `if (!path) path = "."`
abbrev pub or_here : Option Bytes → Bytes
or_here none = codes "."
or_here (some path) = path

abbrev not_allowed : Option Bytes
not_allowed = error_json (codes "Path not allowed")

module _ {J W : Type 0} (cj : Cjson J) (fs : FileSystem W) (fnmatch : Bytes → Bytes → Bool)
    (al : Option Allowlist) where
  unfoldable pub read_stat : Bytes → W → Io FileStat → Option Bytes
  unfolding errno_json read_result error_json
  read_stat path w (io_error text) = errno_json cj text
  read_stat path w (io_ok st) =
      if ltb max_file_size st.st_size
      then error_json (codes "File exceeds 10MB size limit")
      else read_result cj path st.st_size (fs.read_file path w)

  unfoldable pub read_at : Option Bytes → W → Option Bytes
  unfolding read_stat check_path error_json
  read_at none w = error_json (codes "'path' required")
  read_at (some path) w =
      if check_path fnmatch al path then read_stat path w (fs.stat path w) else not_allowed

  unfoldable pub file_read_exec : J → W → Option Bytes × W
  unfolding read_at string_arg
  file_read_exec args w = (read_at (string_arg cj args (codes "path")) w, w)

  unfoldable pub write_open : Bytes → Bytes → W → Option Bytes × W
  unfolding write_result error_json
  write_open path content w =
      if ltb max_file_size (length content)
      then (error_json (codes "Content exceeds 10MB size limit"), w)
      else let (written, w') = fs.write_file path content w in (write_result cj path written, w')

  unfoldable pub write_at : Option Bytes → Option Bytes → W → Option Bytes × W
  unfolding write_open check_path error_json
  write_at (some path) (some content) w =
      if check_path fnmatch al path then write_open path content w else (not_allowed, w)
  write_at _ _ w = (error_json (codes "'path' and 'content' required"), w)

  unfoldable pub file_write_exec : J → W → Option Bytes × W
  unfolding write_at string_arg
  file_write_exec args w =
      write_at (string_arg cj args (codes "path")) (string_arg cj args (codes "content")) w

  unfoldable pub file_list_exec : J → W → Option Bytes × W
  unfolding list_result check_path string_arg
  file_list_exec args w =
      let path = or_here (string_arg cj args (codes "path")) in
      (
        if check_path fnmatch al path
            then list_result cj fs w path (fs.list_dir path w)
            else not_allowed,
        w,
      )

  unfoldable pub search_at : Bytes → Option Bytes → W → Option Bytes
  unfolding search_result check_path error_json
  search_at path none w = error_json (codes "'pattern' required")
  search_at path (some pattern) w =
      if check_path fnmatch al path then search_result cj fs w path pattern else not_allowed

  unfoldable pub file_search_exec : J → W → Option Bytes × W
  unfolding search_at string_arg
  file_search_exec args w = (
    search_at (or_here (string_arg cj args (codes "path"))) (string_arg cj args (codes "pattern"))
        w,
    w,
  )

  unfoldable pub delete_at : Option Bytes → W → Option Bytes × W
  unfolding delete_result check_path error_json
  delete_at none w = (error_json (codes "'path' required"), w)
  delete_at (some path) w =
      if check_path fnmatch al path
      then (let (failed, w') = fs.unlink path w in (delete_result cj path failed, w'))
      else (not_allowed, w)

  unfoldable pub file_delete_exec : J → W → Option Bytes × W
  unfolding delete_at string_arg
  file_delete_exec args w = delete_at (string_arg cj args (codes "path")) w
