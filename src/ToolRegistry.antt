-- ===== src/ToolRegistry.antt =====
-- agent/tool_registry.c: the array `g_tools` with its count is the list of registered tools.
pub mod Lookup
use vajra_ai.Prelude.{
  ℕ, ◌+◌, Bool, true, false, Option, none, some, List, [], ◌∷◌, ◌++◌, ltb, leb, if◌then◌else◌,
  length, get_elem?,
}
use vajra_ai.Prelude.Int.{ℤ, pos, negsuc}
use vajra_ai.CString.{Bytes, codes, equal}
use vajra_ai.Types.{Result, result_ok, result_err, err_generic}
use vajra_ai.Memory.{Outcome, done, fault, null_pointer}
use vajra_ai.Cjson.{Cjson}

abbrev pub max_tools : ℕ
max_tools = 64

-- `tool_t`. A tool acts on the outside world `W`; `execute` is applied to its `user_data` already,
-- and may return NULL.
pub record Tool (J W : Type 0) : Type 0 where
  pub name : Option Bytes
  pub description : Option Bytes
  pub parameters_schema : Option Bytes
  pub execute : Option (J → W → Option Bytes × W)

-- One call of strcmp on two pointers.
unfoldable pub same_name : Option Bytes → Option Bytes → Outcome Bool
same_name none name = fault null_pointer
same_name (some a) none = fault null_pointer
same_name (some a) (some b) = done (equal a b)

abbrev pub or_empty : Option Bytes → Bytes
or_empty none = []
or_empty (some s) = s

-- The schema of the parameters, if it is there and parses.
add_parameters : {J : Type 0} → Cjson J → J → Option Bytes → J
add_parameters cj func none = func
add_parameters cj func (some schema) = elim (cj.parse schema) [
  | none ↦ func
  | some params ↦ cj.add_item func (codes "parameters") params
]

abbrev pub Registry : Type 0 → Type 0 → Type 0
Registry J W = List (Tool J W)

module _ {J W : Type 0} where
  -- `tool_registry_init` and `tool_registry_shutdown`
  abbrev pub tool_registry_init : Registry J W
  tool_registry_init = []

  append_tool : Registry J W → Tool J W → Result × Registry J W
  append_tool tools tool = elim tool.name [
    | none ↦ (result_err err_generic (codes "Tool must have name and execute fn"), tools)
    | some _ ↦ elim tool.execute [
      | none ↦ (result_err err_generic (codes "Tool must have name and execute fn"), tools)
      | some _ ↦ (result_ok, tools ++ tool ∷ [])
    ]
  ]

  unfoldable pub tool_register : Registry J W → Tool J W → Result × Registry J W
  unfolding append_tool
  tool_register tools tool =
      if leb max_tools (length tools)
      then (result_err err_generic (codes "Max tools reached (64)"), tools)
      else append_tool tools tool

  -- One round of `tool_find`, on the result of its comparison.
  unfoldable pub check_tool :
      Tool J W → Outcome (Option (Tool J W)) → Outcome Bool → Outcome (Option (Tool J W))
  check_tool tool rest (fault e) = fault e
  check_tool tool rest (done same) = if same then done (some tool) else rest

  unfoldable pub tool_find : Registry J W → Option Bytes → Outcome (Option (Tool J W))
  unfolding check_tool same_name
  tool_find [] name = done none
  tool_find (tool ∷ tools) name = check_tool tool (tool_find tools name) (same_name tool.name name)

  unfoldable pub tool_count : Registry J W → ℕ
  tool_count tools = length tools

  unfoldable pub tool_get : Registry J W → ℤ → Option (Tool J W)
  tool_get tools (pos i) = get_elem? tools i
  tool_get tools (negsuc _) = none

  tool_json : Cjson J → Tool J W → J
  unfolding add_parameters
  tool_json cj tool =
      let named = cj.add_string cj.create_object (codes "name") (or_empty tool.name) in
      let described = cj.add_string named (codes "description") (or_empty tool.description) in
      cj.add_item (cj.add_string cj.create_object (codes "type") (codes "function"))
        (codes "function") (add_parameters cj described tool.parameters_schema)

  unfoldable pub tools_array : Cjson J → J → Registry J W → J
  unfolding tool_json
  tools_array cj arr [] = arr
  tools_array cj arr (tool ∷ tools) = tools_array cj (cj.add_to_array arr (tool_json cj tool)) tools

  unfoldable pub tool_generate_json : Cjson J → Registry J W → Option Bytes
  unfolding tools_array
  tool_generate_json cj tools = cj.print (tools_array cj cj.create_array tools)
