-- ===== src/FileTools/Register.antt =====
-- tools/file_ops/file_tool.c, `file_tool_register`.
use vajra_ai.Prelude.{Bool, Option, some, ◌++◌}
use vajra_ai.CString.{Bytes, codes}
use vajra_ai.Cjson.{Cjson}
use vajra_ai.Allowlist.{Allowlist}
use vajra_ai.ToolRegistry.{Tool, Registry, tool_register}
use vajra_ai.FileTools.Answers.{FileSystem}
use vajra_ai.FileTools.{
  file_read_exec, file_write_exec, file_list_exec, file_search_exec, file_delete_exec,
}

module _ {J W : Type 0} (cj : Cjson J) (fs : FileSystem W) (fnmatch : Bytes → Bytes → Bool)
    (al : Option Allowlist) where
  read_tool : Tool J W
  read_tool = record {
    name = some (codes "file_read");
    description = some (codes "Read the contents of a file");
    parameters_schema = some (
        codes "{\"type\":\"object\",\"properties\":{"
        ++ codes "\"path\":{\"type\":\"string\",\"description\":\"Path to the file\"}"
        ++ codes "},\"required\":[\"path\"]}");
    execute = some (file_read_exec cj fs fnmatch al);
  }

  write_tool : Tool J W
  write_tool = record {
    name = some (codes "file_write");
    description = some (codes "Write content to a file (creates or overwrites)");
    parameters_schema = some (
        codes "{\"type\":\"object\",\"properties\":{"
        ++ codes "\"path\":{\"type\":\"string\",\"description\":\"Path to the file\"},"
        ++ codes "\"content\":{\"type\":\"string\",\"description\":\"Content to write\"}"
        ++ codes "},\"required\":[\"path\",\"content\"]}");
    execute = some (file_write_exec cj fs fnmatch al);
  }

  list_tool : Tool J W
  list_tool = record {
    name = some (codes "file_list");
    description = some (codes "List files and directories in a path");
    parameters_schema = some (
        codes "{\"type\":\"object\",\"properties\":{"
        ++ codes
            "\"path\":{\"type\":\"string\",\"description\":\"Directory path (default: current dir)\"}"
        ++ codes "},\"required\":[]}");
    execute = some (file_list_exec cj fs fnmatch al);
  }

  search_tool : Tool J W
  search_tool = record {
    name = some (codes "file_search");
    description = some (codes "Search for files by name pattern (recursive)");
    parameters_schema = some (
        codes "{\"type\":\"object\",\"properties\":{"
        ++ codes "\"path\":{\"type\":\"string\",\"description\":\"Directory to search in\"},"
        ++ codes
            "\"pattern\":{\"type\":\"string\",\"description\":\"Filename pattern to search for\"}"
        ++ codes "},\"required\":[\"pattern\"]}");
    execute = some (file_search_exec cj fs fnmatch al);
  }

  delete_tool : Tool J W
  delete_tool = record {
    name = some (codes "file_delete");
    description = some (codes "Delete a file");
    parameters_schema = some (
        codes "{\"type\":\"object\",\"properties\":{"
        ++ codes "\"path\":{\"type\":\"string\",\"description\":\"Path to the file to delete\"}"
        ++ codes "},\"required\":[\"path\"]}");
    execute = some (file_delete_exec cj fs fnmatch al);
  }

  unfoldable pub file_tool_register : Registry J W → Registry J W
  unfolding tool_register read_tool write_tool list_tool search_tool delete_tool
  file_tool_register tools =
      let r0 = (tool_register tools read_tool).1 in
      let r1 = (tool_register r0 write_tool).1 in
      let r2 = (tool_register r1 list_tool).1 in
      let r3 = (tool_register r2 search_tool).1 in let r4 = (tool_register r3 delete_tool).1 in r4
