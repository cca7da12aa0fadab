-- ===== src/Agent/Chat.antt =====
-- agent/agent.c, `parse_tool_arguments` and `agent_chat`: the loop of provider calls and tool
-- calls over the history. The registry does not change during a turn.
pub mod Keeps
pub mod Safe
pub mod Atomic
use vajra_ai.Prelude.{
  ℕ, zero, suc, ◌+◌, Bool, true, false, ◌||◌, Option, none, some, List, [], ◌∷◌, ◌++◌, ltb,
  if◌then◌else◌, length,
}
use vajra_ai.Prelude.Int.{pos_part}
use vajra_ai.CString.{Bytes, codes, equal}
use vajra_ai.Memory.{Outcome, done, fault, null_pointer, ◌>>=◌}
use vajra_ai.Cjson.{Cjson, object_item?}
use vajra_ai.ToolRegistry.{Tool, Registry, or_empty, tool_find, tool_generate_json}
use vajra_ai.Agent.State.{Message, LlmResponse, Provider, Agent, build_system_prompt, limit_of}
use vajra_ai.Agent.History.{agent_add_message, roll_back}
use vajra_ai.Agent.Think.{strip_think_tags}
use vajra_ai.Agent.Wire.{string_at, build_messages_json}

-- What a turn changes.
pub record Turn (J W : Type 0) : Type 0 where
  pub messages : List (Message J)
  pub world : W

abbrev pub text_message : {J : Type 0} → Bytes → Option Bytes → Message J
text_message role content = record {
  role = role;
  content = or_empty content;
  tool_call_id = none;
  name = none;
  tool_calls = none;
}

abbrev pub user_message : {J : Type 0} → Bytes → Message J
user_message text = text_message (codes "user") (some text)

abbrev pub unknown_tool : Bytes
unknown_tool = codes "{\"error\": \"Unknown tool\"}"

abbrev pub out_of_iterations : Bytes
out_of_iterations = codes "[Aham: max tool iterations reached. Please try again.]"

module _ {J : Type 0} (cj : Cjson J) where
  -- The string of the arguments, parsed; an object for what is missing, empty or no JSON.
  unfoldable pub parse_tool_arguments : Option J → J
  parse_tool_arguments func = elim (object_item? func (λ j. cj.object_item j (codes "arguments"))) [
    | none ↦ cj.create_object
    | some args ↦
        if cj.is_string args
        then elim (cj.string_value args) [
          | none ↦ cj.create_object
          | some text ↦
              if equal text [] || equal text (codes "{}")
              then cj.create_object
              else elim (cj.parse text) [ none ↦ cj.create_object | some o ↦ o ]
        ]
        else args
  ]

module _ {J W : Type 0} (cj : Cjson J) (tools : Registry J W) where
  -- What a tool that was looked up answers.
  unfoldable pub run_tool : Option (Tool J W) → Option J → W → Outcome (Option Bytes × W)
  unfolding parse_tool_arguments
  run_tool none func w = done (some unknown_tool, w)
  run_tool (some tool) func w = elim tool.execute [
    | none ↦ fault null_pointer
    | some execute ↦ done (execute (parse_tool_arguments cj func) w)
  ]

  abbrev pub call_function : Option J → Option J
  call_function tc = object_item? tc (λ j. cj.object_item j (codes "function"))

  abbrev pub call_name : Option J → Option Bytes
  call_name tc = string_at cj (call_function tc) (codes "name")

  -- Looking the tool of one call up and running it.
  unfoldable pub dispatch : Option J → W → Outcome (Option Bytes × W)
  unfolding run_tool
  dispatch tc w = do found ← tool_find tools (call_name tc); run_tool found (call_function tc) w

  -- The message that carries the result of a call.
  abbrev pub result_message : Option J → Option Bytes → Message J
  result_message tc result = record {
    role = codes "tool";
    content = or_empty result;
    tool_call_id = string_at cj tc (codes "id");
    name = call_name tc;
    tool_calls = none;
  }

  -- `for (t = 0; t < num_calls; t++)`, on the rounds left.
  unfoldable pub run_calls : ℕ → J → ℕ → ℕ → Turn J W → Outcome (Turn J W)
  unfolding dispatch
  run_calls limit calls zero t s = done s
  run_calls limit calls (suc n) t s = do
    answer ← dispatch (cj.array_item calls t) s.world
    ms ← agent_add_message cj limit s.messages (result_message (cj.array_item calls t) answer.0)
    run_calls limit calls n (t + 1) (record { messages = ms; world = answer.1 })

  -- The tool calls of a response, if there is at least one.
  abbrev pub pending_calls : LlmResponse J → Option J
  pending_calls resp = elim resp.tool_calls [
    | none ↦ none
    | some calls ↦ if ltb 0 (cj.array_size calls) then some calls else none
  ]

  abbrev think : Option (ℕ → W → W) → ℕ → W → W
  think none iter w = w
  think (some f) iter w = f iter w

  -- The request of one iteration: the callback, the two JSON texts, and the provider.
  unfoldable pub ask : Agent J W → ℕ → Turn J W → LlmResponse J × W
  ask agent iter s =
      agent.provider.chat_complete (cj.print (build_messages_json cj agent.provider.fmt s.messages))
        (tool_generate_json cj tools) (think agent.on_thinking (iter + 1) s.world)

  -- The message of an assistant that asks for tool calls.
  abbrev pub calls_message : LlmResponse J → J → Message J
  calls_message resp calls = record {
    role = codes "assistant";
    content = or_empty (strip_think_tags resp.content);
    tool_call_id = none;
    name = none;
    tool_calls = some calls;
  }

  -- The body of the loop behind the provider's call, on its error and its tool calls: roll back,
  -- or make the calls and go on by `next`, or add the final text. The reply is `none` where the C
  -- function returns NULL.
  unfoldable pub respond :
      ℕ
      → ℕ
      → (Turn J W → Outcome (Option Bytes × Turn J W))
      → LlmResponse J
      → Turn J W
      → Option Bytes
      → Option J
      → Outcome (Option Bytes × Turn J W)
  unfolding run_calls
  respond limit pre next resp s (some error) calls =
      done (some error, record s { messages = roll_back pre s.messages })
  respond limit pre next resp s none (some calls) = do
    ms ← agent_add_message cj limit s.messages (calls_message resp calls)
    s' ← run_calls limit calls (cj.array_size calls) 0 (record s { messages = ms })
    next s'
  respond limit pre next resp s none none = do
    let text = strip_think_tags resp.content
    ms ← agent_add_message cj limit s.messages (text_message (codes "assistant") text)
    done (text, record s { messages = ms })

  -- `for (iter = 0; iter < max_iterations; iter++)`, on the rounds left.
  unfoldable pub chat_loop : Agent J W → ℕ → ℕ → ℕ → Turn J W → Outcome (Option Bytes × Turn J W)
  unfolding ask respond
  chat_loop agent pre zero iter s =
      done (some out_of_iterations, record s { messages = roll_back pre s.messages })
  chat_loop agent pre (suc n) iter s =
      let (resp, w) = ask agent iter s in
      respond (limit_of agent.history_limit) pre (λ s'. chat_loop agent pre n (iter + 1) s') resp
        (record s { world = w }) resp.error (pending_calls resp)

  -- The first message of an empty history is the system prompt.
  unfoldable pub with_system : ℕ → Bytes → List (Message J) → Outcome (List (Message J))
  with_system limit prompt [] =
      agent_add_message cj limit [] (text_message (codes "system") (some prompt))
  with_system limit prompt (m ∷ ms) = done (m ∷ ms)

  abbrev empty_message : Bytes
  empty_message = codes "[Error: empty message]"

  -- `agent_chat`, at an agent that is not NULL: the reply, the agent and the world.
  unfoldable pub agent_chat : Agent J W → Option Bytes → W → Outcome (Option Bytes × Agent J W × W)
  unfolding chat_loop with_system
  agent_chat agent none w = done (some empty_message, agent, w)
  agent_chat agent (some []) w = done (some empty_message, agent, w)
  agent_chat agent (some (c ∷ cs)) w = do
    let limit = limit_of agent.history_limit
    ms ← with_system limit (build_system_prompt agent.system_parts) agent.messages
    ms' ← agent_add_message cj limit ms (user_message (c ∷ cs))
    out ←
        chat_loop agent (length ms) (pos_part agent.max_iterations) 0
          (record { messages = ms'; world = w })
    done (out.0, record agent { messages = out.1.messages }, out.1.world)
