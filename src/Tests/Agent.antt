-- ===== src/Tests/Agent.antt =====
-- agent/tool_registry.c, and agent/agent.c without its loop.
use mathlib.Core.Option
use vajra_ai.Prelude.{
  ℕ, ◌+◌, ◌≡◌, refl, some, none, List, [], ◌∷◌, ◌++◌, arith, if◌then◌else◌, take, get_elem?,
}
use vajra_ai.CString.{Bytes, codes, equal, strstr}
use vajra_ai.Types.{result_ok, str_trim}
use vajra_ai.Types.Trim.{IsTrimOf}
use vajra_ai.Memory.{done, fault, null_pointer}
use vajra_ai.ToolRegistry.{Tool, Registry, tool_register, tool_find}
use vajra_ai.ToolRegistry.Lookup
use vajra_ai.ToolRegistry.Lookup.{or_else, tool_find-tool_register, tool_register-IsValid}
use vajra_ai.Agent.State.{Message}
use vajra_ai.Agent.History.{has_tool_calls_at, agent_compact_history, roll_back}
use vajra_ai.Agent.History.Bounds.{roll_back-eq-take}
use vajra_ai.Agent.History.Compact.{
  IsCompactionOf, agent_compact_history-IsCompactionOf, agent_compact_history-next,
}
use vajra_ai.Agent.Think.{open_tag, close_tag, strip_text, strip_think_tags}
use vajra_ai.Agent.Think.Blocks.{strip_think_tags-total, strip_text-block, strip_text_ends}
use vajra_ai.Agent.Chat.{text_message, dispatch}
use vajra_ai.Agent.Chat.Safe.{dispatch_no_name}
use vajra_ai.Tests.Json.{Json, json, obj, arr, cons, nil, end, get_field}

-- A tool whose answer is its name, and that counts its calls.
abbrev pub echo : Bytes → Tool Json ℕ
echo name = record {
  name = some name;
  description = none;
  parameters_schema = none;
  execute = some (λ args w. (some name, w + 1));
}

abbrev pub one_tool : Registry Json ℕ
one_tool = echo (codes "time") ∷ []

register_runs : (tool_register one_tool (echo (codes "ls"))).0 ≡ result_ok
unfolding tool_register
register_runs = refl

one_tool-IsValid : Lookup.IsValid one_tool
one_tool-IsValid = record { named = ((codes "time", refl), tt); fits = omega arith }

tool_register-IsValid_example : Lookup.IsValid (tool_register one_tool (echo (codes "ls"))).1
tool_register-IsValid_example = tool_register-IsValid one_tool (echo (codes "ls")) one_tool-IsValid

tool_find-tool_register_example :
    tool_find (tool_register one_tool (echo (codes "ls"))).1 (some (codes "ls"))
    ≡ or_else
        (tool_find one_tool (some (codes "ls")))
        (done (if equal (codes "ls") (codes "ls") then some (echo (codes "ls")) else none))
tool_find-tool_register_example =
    tool_find-tool_register one_tool (echo (codes "ls")) (codes "ls") (codes "ls") refl
      register_runs

dispatch_no_name_example : dispatch json one_tool (some (obj end)) 0 ≡ fault null_pointer
unfolding get_field
dispatch_no_name_example = dispatch_no_name json one_tool (some (obj end)) 0 (omega arith) refl

think_runs : strip_think_tags (some (codes " <think>a</think> b<think>c")) ≡ some (codes "b")
unfolding strip_think_tags str_trim strstr
think_runs = refl

strip_think_tags-total_example :
    (t r : Bytes) × (strip_think_tags (some (codes "<think>x")) ≡ some r)
    × (strip_text (codes "<think>x") ≡ some t)
    × IsTrimOf t r
strip_think_tags-total_example = strip_think_tags-total (codes "<think>x")

strip_text-block_example :
    strip_text (codes "a" ++ (open_tag ++ (codes "b" ++ (close_tag ++ codes "c"))))
    ≡ Option.map (λ r. codes "a" ++ r) (strip_text (codes "c"))
strip_text-block_example =
    strip_text-block (codes "a") (codes "b") (codes "c") (unfold strstr in refl)
      (unfold strstr in refl)

strip_text_ends_example :
    (strstr (codes "ab") open_tag ≡ none → strip_text (codes "ab") ≡ some (codes "ab"))
    × (strstr (codes "a" ++ open_tag) open_tag ≡ some (codes "a", open_tag)
        → strstr (codes "b") close_tag ≡ none
        → strip_text (codes "a" ++ (open_tag ++ codes "b")) ≡ some (codes "a"))
strip_text_ends_example = strip_text_ends (codes "ab") (codes "a") (codes "b")

abbrev pub said : Bytes → Message Json
said text = text_message (codes "user") (some text)

abbrev tool_result : Bytes → Message Json
tool_result text = text_message (codes "tool") (some text)

-- An assistant message with two tool calls.
abbrev asked : Message Json
asked = record {
  role = codes "assistant";
  content = [];
  tool_call_id = none;
  name = none;
  tool_calls = some (arr (cons (obj end) (cons (obj end) nil)));
}

-- A history at the limit 8, whose quarter ends between the two results of one message.
abbrev pub talk : List (Message Json)
talk =
    said (codes "sys")
    ∷ asked
    ∷ tool_result (codes "1")
    ∷ tool_result (codes "2")
    ∷ said (codes "a")
    ∷ said (codes "b")
    ∷ said (codes "c")
    ∷ said (codes "d")
    ∷ []

agent_compact_history-IsCompactionOf_example :
    IsCompactionOf json 8 talk (agent_compact_history json 8 talk)
agent_compact_history-IsCompactionOf_example =
    agent_compact_history-IsCompactionOf json 8 talk (omega arith)

agent_compact_history-next_example :
    get_elem? (agent_compact_history json 8 talk) 1 ≡ some (tool_result (codes "2"))
agent_compact_history-next_example =
    agent_compact_history-next json 8 talk (tool_result (codes "2"))
      (unfold has_tool_calls_at in refl) refl

roll_back-eq-take_example : roll_back 3 talk ≡ take 3 talk
roll_back-eq-take_example = roll_back-eq-take 3 talk
