-- ===== src/MdMemory/Tools.antt =====
-- memory/md_memory.c: the three tools. What they act on is the table of files, or the fault that one
-- of them has met.
use vajra_ai.Prelude.{Option, none, some, ◌∷◌, ◌++◌}
use vajra_ai.CString.{Bytes, codes}
use vajra_ai.Memory.{Outcome, done, fault, ◌>>=◌}
use vajra_ai.Cjson.{Cjson, string_arg}
use vajra_ai.Types.{Result, Status}
use vajra_ai.Templates.{FileTable}
use vajra_ai.ToolRegistry.{Tool, Registry, tool_register}
use vajra_ai.MdMemory.{Rights, MdMemory, memory_store, memory_recall, memory_search}

abbrev or_alias : Option Bytes → Option Bytes → Option Bytes
or_alias none alias = alias
or_alias (some s) alias = some s

-- An operation on the files, run if nothing has faulted before.
unfoldable pub run_on :
    (FileTable → Outcome (Option Bytes × FileTable))
    → Outcome FileTable
    → Option Bytes × Outcome FileTable
run_on f (fault e) = (none, fault e)
run_on f (done files) = elim (f files) [
  | fault e ↦ (none, fault e)
  | done (out, files') ↦ (out, done files')
]

module _ {J : Type 0} (cj : Cjson J) where
  -- `section`, or its alias.
  unfoldable pub category_arg : J → Option Bytes
  unfolding string_arg
  category_arg args =
      or_alias (string_arg cj args (codes "section")) (string_arg cj args (codes "category"))

  -- `cJSON_AddStringToObject(e, "error", msg)`, which a NULL leaves as it is.
  abbrev error_object : Option Bytes → J
  error_object none = cj.create_object
  error_object (some text) = cj.add_string cj.create_object (codes "error") text

  unfoldable pub store_answer : Result × FileTable → Option Bytes × FileTable
  store_answer (r, files) = elim r.status [
    | Status.ok ↦ (some (codes "{\"status\":\"stored\"}"), files)
    | _ ↦ (cj.print (error_object r.message), files)
  ]

  unfoldable pub tool_memory_store :
      Rights → MdMemory → J → FileTable → Outcome (Option Bytes × FileTable)
  unfolding store_answer category_arg memory_store string_arg
  tool_memory_store rights mem args files =
      memory_store rights mem (category_arg args) (string_arg cj args (codes "key"))
        (string_arg cj args (codes "value")) files
      >>= λ r. done (store_answer r)

  abbrev recalled : Option Bytes → J
  recalled (some val) = cj.add_string cj.create_object (codes "value") val
  recalled none = cj.add_string cj.create_object (codes "error") (codes "not found")

  unfoldable pub tool_memory_recall : MdMemory → J → FileTable → Outcome (Option Bytes × FileTable)
  unfolding category_arg memory_recall string_arg
  tool_memory_recall mem args files =
      memory_recall mem (category_arg args) (string_arg cj args (codes "key")) files >>= λ val.
      done (cj.print (recalled val), files)

  unfoldable pub search_answer :
      MdMemory → Option Bytes → FileTable → Outcome (Option Bytes × FileTable)
  unfolding memory_search
  search_answer mem (some (c ∷ cs)) files =
      memory_search mem (c ∷ cs) files >>= λ text. done (some text, files)
  search_answer mem _ files = done (some (codes "{\"error\":\"query required\"}"), files)

  unfoldable pub tool_memory_search : MdMemory → J → FileTable → Outcome (Option Bytes × FileTable)
  unfolding search_answer string_arg
  tool_memory_search mem args files = search_answer mem (string_arg cj args (codes "query")) files

  store_tool : Rights → MdMemory → Tool J (Outcome FileTable)
  store_tool rights mem = record {
    name = some (codes "memory_store");
    description = some (
        codes "Save an important fact or preference to MEMORY.md. "
        ++ (codes "section must be one of: 'User Information', 'Preferences', "
            ++ (codes "'Project Context', 'Important Notes'. "
                ++ codes "key is a short label; value is the detailed content.")));
    parameters_schema = some (
        codes "{\"type\":\"object\",\"properties\":{"
        ++ (codes "\"section\":{\"type\":\"string\","
            ++ (codes "\"description\":\"One of: User Information, Preferences, Project Context, "
                ++ (codes "Important Notes\"},"
                    ++ (codes "\"key\":{\"type\":\"string\",\"description\":\"Short label\"},"
                        ++ (codes "\"value\":{\"type\":\"string\","
                            ++ (codes "\"description\":\"Detailed fact to remember\"}"
                                ++ codes "},\"required\":[\"section\",\"key\",\"value\"]}")))))));
    execute = some (λ args. run_on (tool_memory_store rights mem args));
  }

  recall_tool : MdMemory → Tool J (Outcome FileTable)
  recall_tool mem = record {
    name = some (codes "memory_recall");
    description = some (codes "Recall a specific fact from MEMORY.md by section and key.");
    parameters_schema = some (
        codes "{\"type\":\"object\",\"properties\":{"
        ++ (codes "\"section\":{\"type\":\"string\"},"
            ++ (codes "\"key\":{\"type\":\"string\"}"
                ++ codes "},\"required\":[\"section\",\"key\"]}")));
    execute = some (λ args. run_on (tool_memory_recall mem args));
  }

  search_tool : MdMemory → Tool J (Outcome FileTable)
  search_tool mem = record {
    name = some (codes "memory_search");
    description = some (codes "Full-text search of MEMORY.md.");
    parameters_schema = some (
        codes "{\"type\":\"object\",\"properties\":{"
        ++ (codes "\"query\":{\"type\":\"string\"}" ++ codes "},\"required\":[\"query\"]}"));
    execute = some (λ args. run_on (tool_memory_search mem args));
  }

  -- The loop over the three; a tool that is refused is passed over.
  unfoldable pub memory_register_tools :
      Rights → MdMemory → Registry J (Outcome FileTable) → Registry J (Outcome FileTable)
  unfolding tool_register store_tool recall_tool search_tool
  memory_register_tools rights mem tools =
      let with_store = (tool_register tools (store_tool rights mem)).1 in
      let with_recall = (tool_register with_store (recall_tool mem)).1 in
      (tool_register with_recall (search_tool mem)).1
