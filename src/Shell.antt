-- ===== src/Shell.antt =====
-- tools/shell/shell_tool.c: `shell_execute`. The running of a command is in Run.
pub mod Run
pub mod Bounds
pub mod Gate
pub mod Register
use vajra_ai.Prelude.{
  ℕ, zero, suc, ◌+◌, ◌≤◌, ◌<◌, Bool, true, false, not, ◌&&◌, ◌||◌, Option, none, some, List, [],
  ◌∷◌, ◌++◌, ltb, leb, ◌==◌, if◌then◌else◌, length,
}
use vajra_ai.Prelude.Int.{ℤ, pos, negsuc}
use vajra_ai.CString.{Bytes, codes}
use vajra_ai.Cjson.{Cjson, string_arg}
use vajra_ai.Types.{sanitize_output}
use vajra_ai.Allowlist.{Allowlist, acl_command, allowlist_is_enabled, allowlist_check}
use vajra_ai.Shell.Run.{Child, Ran, shell_run_timed}

-- A timeout outside of 1 to 300 seconds is replaced.
unfoldable pub in_range : ℤ → ℕ
in_range (negsuc _) = 30
in_range (pos n) = if n == 0 || ltb 300 n then 30 else n

-- The pipe and the fork: the error text, or the child, on an arbitrary world.
abbrev pub Spawn : Type 0 → Type 0
Spawn W = Bytes → W → Child × W

-- The test in front of the command.
unfoldable pub is_blocked : (Bytes → Bytes → Bool) → Option Allowlist → Bytes → Bool
is_blocked fnmatch none command = false
is_blocked fnmatch (some al) command =
    allowlist_is_enabled al acl_command && not (allowlist_check fnmatch al acl_command command)

module _ {J : Type 0} (cj : Cjson J) where
  unfoldable pub json_error : Bytes → Option Bytes → Option Bytes
  json_error msg none = cj.print (cj.add_string cj.create_object (codes "error") msg)
  json_error msg (some detail) =
      cj.print
        (cj.add_string (cj.add_string cj.create_object (codes "error") msg) (codes "detail") detail)

  unfoldable pub timeout_arg : Option J → ℕ
  unfolding in_range
  timeout_arg none = 30
  timeout_arg (some tv) = if cj.is_number tv then in_range (cj.int_value tv) else 30

  unfoldable pub run_result : Bytes → Ran → Option Bytes
  unfolding json_error sanitize_output
  run_result command (Ran.failed text) = json_error (codes "Failed to spawn process") (some text)
  run_result command (Ran.finished raw_output exit_code) =
      let with_command = cj.add_string cj.create_object (codes "command") command in
      let with_code = cj.add_int with_command (codes "exit_code") exit_code in
      cj.print (cj.add_string with_code (codes "output") (sanitize_output (some raw_output)))

  unfoldable pub with_run {ℓ} : {W : Type ℓ} → Bytes → W → Option Ran → Option (Option Bytes × W)
  unfolding run_result
  with_run command w none = none
  with_run command w (some ran) = some (run_result command ran, w)

module _ {J W : Type 0} (cj : Cjson J) where
  -- `none` where the command never ends.
  unfoldable pub run_command : Spawn W → Bytes → ℕ → W → Option (Option Bytes × W)
  unfolding with_run shell_run_timed
  run_command spawn command timeout w =
      let (child, w') = spawn command w in with_run cj command w' (shell_run_timed child timeout)

  unfoldable pub execute_with :
      (Bytes → Bytes → Bool)
      → Option Allowlist
      → Spawn W
      → Option J
      → Option Bytes
      → W
      → Option (Option Bytes × W)
  unfolding json_error timeout_arg is_blocked run_command
  execute_with fnmatch al spawn tv (some (c ∷ cs)) w =
      if is_blocked fnmatch al (c ∷ cs)
      then some (json_error cj (codes "Command not permitted by allowlist") (some (c ∷ cs)), w)
      else run_command spawn (c ∷ cs) (timeout_arg cj tv) w
  execute_with fnmatch al spawn tv _ w =
      some (json_error cj (codes "'command' parameter required") none, w)

  unfoldable pub shell_execute :
      (Bytes → Bytes → Bool) → Option Allowlist → Spawn W → J → W → Option (Option Bytes × W)
  unfolding execute_with string_arg
  shell_execute fnmatch al spawn args w =
      execute_with fnmatch al spawn (cj.object_item args (codes "timeout"))
        (string_arg cj args (codes "command")) w
