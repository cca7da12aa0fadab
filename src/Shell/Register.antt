-- ===== src/Shell/Register.antt =====
-- tools/shell/shell_tool.c, `shell_tool_register`. What the tool acts on is the world, or `none` behind
-- a command that has not returned.
use vajra_ai.Prelude.{Bool, Option, none, some, ◌++◌}
use vajra_ai.CString.{Bytes, codes}
use vajra_ai.Cjson.{Cjson}
use vajra_ai.ToolRegistry.{Tool, Registry, tool_register}
use vajra_ai.Allowlist.{Allowlist}
use vajra_ai.Shell.{Spawn, shell_execute}

module _ {W : Type 0} where
  abbrev returned : Option (Option Bytes × W) → Option Bytes × Option W
  returned none = (none, none)
  returned (some (out, w)) = (out, some w)

  unfoldable pub call_in : (W → Option (Option Bytes × W)) → Option W → Option Bytes × Option W
  call_in f none = (none, none)
  call_in f (some w) = returned (f w)

module _ {J W : Type 0} (cj : Cjson J) (fnmatch : Bytes → Bytes → Bool) (spawn : Spawn W) where
  shell_tool : Option Allowlist → Tool J (Option W)
  shell_tool al = record {
    name = some (codes "shell_exec");
    description = some (
        codes "Execute a shell command and return its output (stdout + stderr). "
        ++ codes "The command runs in a sandboxed child process with a hard timeout.");
    parameters_schema = some (
        codes "{\"type\":\"object\",\"properties\":{"
        ++ (codes "\"command\":{\"type\":\"string\","
            ++ (codes "\"description\":\"The shell command to execute\"},"
                ++ (codes "\"timeout\":{\"type\":\"integer\","
                    ++ (codes "\"description\":\"Timeout in seconds (default 30, max 300)\"}"
                        ++ codes "},\"required\":[\"command\"]}")))));
    execute = some (λ args. call_in (shell_execute cj fnmatch al spawn args));
  }

  unfoldable pub shell_tool_register :
      Option Allowlist → Registry J (Option W) → Registry J (Option W)
  unfolding tool_register shell_tool call_in shell_execute
  shell_tool_register al tools = (tool_register tools (shell_tool al)).1
