-- ===== src/Tests/Turns.antt =====
-- Whole turns of `agent_chat`, with a provider that follows a script.
use vajra_ai.Prelude.{
  ℕ, zero, suc, ◌<◌, ◌≡◌, ◌⊎◌, refl, sym, true, false, Option, some, none, List, [], ◌∷◌, ◌++◌,
  arith, length,
}
use vajra_ai.Prelude.Int.{pos}
use vajra_ai.CString.{Bytes, codes, strstr}
use vajra_ai.Types.{str_trim}
use vajra_ai.Agent.Think.{strip_think_tags}
use vajra_ai.Memory.{done, Ensures}
use vajra_ai.ToolRegistry.{tool_find}
use vajra_ai.Agent.State.{Message, LlmResponse, Provider, Agent, limit_of, build_system_prompt}
use vajra_ai.Agent.History.{agent_compact_history, agent_add_message}
use vajra_ai.Agent.Chat.{text_message, user_message, ask, call_name, agent_chat}
use vajra_ai.Agent.Chat.Safe
use vajra_ai.Agent.Chat.Safe.{
  first_message, NoOverrun, NoFault, AllRunnable, NamesCalls, NamesCalls-ProviderRuns,
  agent_chat-NoOverrun, agent_chat-returns,
}
use vajra_ai.Agent.Chat.Atomic.{FewCalls, agent_chat_atomic, agent_chat-fails_at_limit}
use vajra_ai.Tests.Json.{Json, json, str, obj, arr, cons, nil, end, field, size, item, get_field}
use vajra_ai.Tests.Agent.{one_tool, said, talk}

-- One call of the tool `time`.
abbrev call : Json
call = obj (field (codes "function") (obj (field (codes "name") (str (codes "time")) end)) end)

abbrev calls : Json
calls = arr (cons call nil)

-- The first request is answered by a tool call, and every later one by a text.
abbrev answer : ℕ → LlmResponse Json
answer zero = record { content = none; tool_calls = some calls; error = none }
answer (suc _) = record { content = some (codes " noon "); tool_calls = none; error = none }

abbrev scripted : (ℕ → LlmResponse Json) → Provider Json ℕ
scripted f = record {
  name = codes "script";
  model = codes "m";
  fmt = record {
    tool_result_include_name = true;
    assistant_tool_call_empty_content = false;
    send_tool_choice_auto = false;
    tool_args_as_object = true;
  };
  chat_complete = λ messages tools w. (f w, suc w);
}

abbrev agent : Agent Json ℕ
agent = record {
  provider = scripted answer;
  messages = said (codes "sys") ∷ [];
  max_iterations = pos 3;
  history_limit = pos 0;
  system_parts = [];
  on_thinking = none;
}

answer-calls : (w : ℕ) (c : Json) → (answer w).tool_calls ≡ some c → calls ≡ c
answer-calls zero c e = cc
answer-calls (suc w) c e = cc

named_item :
    (i : ℕ) → i < 1 → (n : Bytes) × (call_name json one_tool (json.array_item calls i) ≡ some n)
unfolding get_field item
named_item zero lt = (codes "time", refl)
named_item (suc i) lt = absurd (omega arith)

named : NamesCalls json one_tool agent
unfolding ask size
named iter s c e i lt =
    let same : calls ≡ c = answer-calls s.world c e in
    rw (← same) (named_item i (omega (arith, rw (← same) at lt)))

runnable : AllRunnable one_tool
runnable = ((codes "time", refl), (_, refl), tt)

abbrev prompt : Bytes
prompt = build_system_prompt agent.system_parts

agent_chat-NoOverrun_example :
    Ensures NoOverrun
      (λ out. Safe.IsValid (first_message prompt agent.messages) (out.1).messages)
      (agent_chat json one_tool agent (some (codes "hi")) 0)
agent_chat-NoOverrun_example =
    agent_chat-NoOverrun json one_tool agent b'h' (codes "i") 0 (omega arith)

agent_chat-returns_example :
    (out : Option Bytes × Agent Json ℕ × ℕ) × (agent_chat json one_tool agent (some (codes "hi")) 0
      ≡ done out)
    × Safe.IsValid (first_message prompt agent.messages) (out.1).messages
agent_chat-returns_example =
    agent_chat-returns json one_tool agent b'h' (codes "i") 0 (omega arith) runnable named

few : FewCalls json one_tool agent NoFault 1
unfolding ask size
few iter s c e = let same : calls ≡ c = answer-calls s.world c e in rw (← same) (omega arith)

limit_runs : limit_of (pos 0) ≡ 128
unfolding limit_of
limit_runs = refl

agent_chat_atomic_example :
    Ensures NoFault
      (λ out.
        ((out.1).messages ≡ agent.messages)
        ⊎ ((between : List (Message Json)) × ((out.1).messages
              ≡ (agent.messages ++ user_message (codes "hi") ∷ [])
                ++ (between ++ text_message (codes "assistant") out.0 ∷ []))))
      (agent_chat json one_tool agent (some (codes "hi")) 0)
agent_chat_atomic_example =
    agent_chat_atomic json one_tool agent NoFault 1 b'h' (codes "i") 0 (omega arith)
      (NamesCalls-ProviderRuns json one_tool agent runnable named) few (omega (arith, limit_runs))

-- The second reply of the turn is the text, trimmed, and the provider was asked twice.
turn_runs :
    (out : Option Bytes × Agent Json ℕ × ℕ) × (agent_chat json one_tool agent (some (codes "hi")) 0
      ≡ done out)
    × (out.0 ≡ some (codes "noon"))
    × (length (out.1).messages ≡ 5)
unfolding agent_chat tool_find get_field item size str_trim limit_of agent_add_message
    strip_think_tags strstr
turn_runs = (_, refl, refl, refl)

-- A provider that is down, and a history at its limit of 8 messages.
abbrev broken : Agent Json ℕ
broken = record {
  provider =
      scripted (λ w. record { content = none; tool_calls = none; error = some (codes "503") });
  messages = talk;
  max_iterations = pos 3;
  history_limit = pos 8;
  system_parts = [];
  on_thinking = none;
}

limit_8 : limit_of (pos 8) ≡ 8
unfolding limit_of
limit_8 = refl

agent_chat-fails_at_limit_example :
    (out : Option Bytes × Agent Json ℕ × ℕ) × (agent_chat json one_tool broken (some (codes "hi")) 0
      ≡ done out)
    × (out.0 ≡ some (codes "503"))
    × ((out.1).messages
        ≡ agent_compact_history json (limit_of (pos 8)) talk ++ user_message (codes "hi") ∷ [])
agent_chat-fails_at_limit_example =
    agent_chat-fails_at_limit json one_tool broken b'h' 2 (codes "i") (codes "503") 0 (sym limit_8)
      (omega arith) refl (λ s. unfold ask in refl)
