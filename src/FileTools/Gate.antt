-- ===== src/FileTools/Gate.antt =====
-- tools/file_ops/file_tool.c: what the path rules keep the tools from.
use vajra_ai.Prelude.{
  ◌≤◌, ◌≡◌, ◌⊎◌, refl, ap, inl, inr, Bool, true, false, Option, none, some, ltb, length, Bool-cases,
  ltb-false→le,
}
use vajra_ai.CString.{Bytes, codes}
use vajra_ai.Cjson.{Cjson, string_arg}
use vajra_ai.Allowlist.{Allowlist}
use vajra_ai.FileTools.Answers.{FileSystem}
use vajra_ai.FileTools.{
  max_file_size, check_path, or_here, read_at, file_read_exec, write_open, write_at,
  file_write_exec, file_list_exec, search_at, file_search_exec, delete_at, file_delete_exec,
}

-- The tools that `file_tool_register` registers.
pub data FileTool : Type 0 where
  file_read file_write file_list file_search file_delete : FileTool

module _ {J W : Type 0} (cj : Cjson J) (fs : FileSystem W) (fnmatch : Bytes → Bytes → Bool)
    (al : Option Allowlist) where
  abbrev pub execute : FileTool → J → W → Option Bytes × W
  execute file_read args w = file_read_exec cj fs fnmatch al args w
  execute file_write args w = file_write_exec cj fs fnmatch al args w
  execute file_list args w = file_list_exec cj fs fnmatch al args w
  execute file_search args w = file_search_exec cj fs fnmatch al args w
  execute file_delete args w = file_delete_exec cj fs fnmatch al args w

  -- A call that has changed the world: its path is allowed, and the change is the one write or the
  -- one deletion at this path.
  pub data Touched (path content : Option Bytes) (w w' : W) : Type 0 where
    written :
        (p c : Bytes)
        → path ≡ some p
        → content ≡ some c
        → check_path fnmatch al p ≡ true
        → length c ≤ max_file_size
        → w' ≡ (fs.write_file p c w).1
        → Touched path content w w'
    deleted :
        (p : Bytes)
        → path ≡ some p
        → check_path fnmatch al p ≡ true
        → w' ≡ (fs.unlink p w).1
        → Touched path content w w'

  write_at_lem :
      (path content : Option Bytes) (w : W)
      → ((write_at cj fs fnmatch al path content w).1 ≡ w)
        ⊎ Touched path content w (write_at cj fs fnmatch al path content w).1
  unfolding write_at write_open
  write_at_lem none content w = inl refl
  write_at_lem (some p) none w = inl refl
  write_at_lem (some p) (some c) w = elim (Bool-cases (check_path fnmatch al p)) [
    | inr e ↦ inl (rw e refl)
    | inl e ↦ elim (Bool-cases (ltb max_file_size (length c))) [
      | inl f ↦ inl (rw (e, f) refl)
      | inr f ↦
          inr (written p c refl refl e (ltb-false→le max_file_size (length c) f) (rw (e, f) refl))
    ]
  ]

  delete_at_lem :
      (path content : Option Bytes) (w : W)
      → ((delete_at cj fs fnmatch al path w).1 ≡ w)
        ⊎ Touched path content w (delete_at cj fs fnmatch al path w).1
  unfolding delete_at
  delete_at_lem none content w = inl refl
  delete_at_lem (some p) content w = elim (Bool-cases (check_path fnmatch al p)) [
    | inr e ↦ inl (rw e refl)
    | inl e ↦ inr (deleted p refl e (rw e refl))
  ]

  -- Whatever the arguments, a call of a file tool leaves the world as it is, or it changes it by
  -- exactly one write of at most 10 MB, or one deletion, at the path of the arguments, which the
  -- allowlist allows.
  pub execute-Touched :
      (tool : FileTool) (args : J) (w : W)
      → ((execute tool args w).1 ≡ w)
        ⊎ Touched
            (string_arg cj args (codes "path"))
            (string_arg cj args (codes "content"))
            w
            (execute tool args w).1
  unfolding file_read_exec file_write_exec file_list_exec file_search_exec file_delete_exec
  execute-Touched file_read args w = inl refl
  execute-Touched file_write args w =
      write_at_lem (string_arg cj args (codes "path")) (string_arg cj args (codes "content")) w
  execute-Touched file_list args w = inl refl
  execute-Touched file_search args w = inl refl
  execute-Touched file_delete args w =
      delete_at_lem (string_arg cj args (codes "path")) (string_arg cj args (codes "content")) w

module _ {J W : Type 0} (cj : Cjson J) (fnmatch : Bytes → Bytes → Bool) (al : Option Allowlist)
    (fs other : FileSystem W) where
  read_at-blocked :
      (path : Option Bytes) (w v : W)
      → check_path fnmatch al (or_here path) ≡ false
      → read_at cj fs fnmatch al path w ≡ read_at cj other fnmatch al path v
  unfolding read_at
  read_at-blocked none w v h = refl
  read_at-blocked (some p) w v h = rw h refl

  write_at-blocked :
      (path content : Option Bytes) (w v : W)
      → check_path fnmatch al (or_here path) ≡ false
      → write_at cj fs fnmatch al path content w
        ≡ ((write_at cj other fnmatch al path content v).0, w)
  unfolding write_at
  write_at-blocked none content w v h = refl
  write_at-blocked (some p) none w v h = refl
  write_at-blocked (some p) (some c) w v h = rw h refl

  search_at-blocked :
      (path : Bytes) (pattern : Option Bytes) (w v : W)
      → check_path fnmatch al path ≡ false
      → search_at cj fs fnmatch al path pattern w ≡ search_at cj other fnmatch al path pattern v
  unfolding search_at
  search_at-blocked path none w v h = refl
  search_at-blocked path (some p) w v h = rw h refl

  delete_at-blocked :
      (path : Option Bytes) (w v : W)
      → check_path fnmatch al (or_here path) ≡ false
      → delete_at cj fs fnmatch al path w ≡ ((delete_at cj other fnmatch al path v).0, w)
  unfolding delete_at
  delete_at-blocked none w v h = refl
  delete_at-blocked (some p) w v h = rw h refl

  -- If the allowlist does not allow the path of the arguments, the current directory if there is
  -- none, no file tool changes the world, and its answer is the same whatever the file system holds.
  pub execute-blocked :
      (tool : FileTool) (args : J) (w v : W)
      → check_path fnmatch al (or_here (string_arg cj args (codes "path"))) ≡ false
      → execute cj fs fnmatch al tool args w ≡ ((execute cj other fnmatch al tool args v).0, w)
  unfolding file_read_exec file_write_exec file_list_exec file_search_exec file_delete_exec
  execute-blocked file_read args w v h =
      ap (λ (r : Option Bytes). (r, w)) (read_at-blocked (string_arg cj args (codes "path")) w v h)
  execute-blocked file_write args w v h =
      write_at-blocked (string_arg cj args (codes "path")) (string_arg cj args (codes "content")) w
        v h
  execute-blocked file_list args w v h = rw h refl
  execute-blocked file_search args w v h =
      ap (λ (r : Option Bytes). (r, w))
        (search_at-blocked (or_here (string_arg cj args (codes "path")))
          (string_arg cj args (codes "pattern")) w v h)
  execute-blocked file_delete args w v h =
      delete_at-blocked (string_arg cj args (codes "path")) w v h
