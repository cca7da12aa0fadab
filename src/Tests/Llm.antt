-- ===== src/Tests/Llm.antt =====
-- providers/ollama/ollama.c
use vajra_ai.Prelude.{ℕ, suc, ◌≡◌, refl, Option, some, none, [], ◌∷◌, if◌then◌else◌}
use vajra_ai.Prelude.Int.{ℤ, pos}
use vajra_ai.CString.{Bytes, codes, equal}
use vajra_ai.CString.Number.{decimal, int_result}
use vajra_ai.Cjson.{Cjson}
use vajra_ai.ToolRegistry.{Tool, Registry}
use vajra_ai.Agent.State.{Agent}
use vajra_ai.Agent.Chat.Safe
use vajra_ai.Http.{HttpResponse}
use vajra_ai.Ollama.{OllamaState, ollama_create, read_response, read_reply}
use vajra_ai.Tests.Json.{
  Json, parsing, str, num, obj, arr, cons, nil, end, field, size, item, get_field, add_to,
  add_field,
}

-- A reply with a call of the tool `time`, one without a name, and one whose arguments do not parse.
abbrev call : Bytes → Bytes → Json
call name args = obj (
    field (codes "function")
      (obj (field (codes "name") (str name) (field (codes "arguments") (str args) end))) end)

abbrev reply : Json
reply = obj (
    field (codes "message")
      (obj (
        field (codes "content") (str (codes "hm")) (
          field (codes "tool_calls")
            (arr (
              cons (call [] (codes "{}")) (
                cons (call (codes "time") (codes "{"))
                  (cons (call (codes "time") (codes "{}")) nil))))
            end)))
      end)

abbrev others : Bytes → Option Json
others s = if equal s (codes "reply") then some reply else none

abbrev cj : Cjson Json
cj = parsing others

abbrev answered : HttpResponse
answered = record { status_code = 200; body = some (codes "reply"); body_len = 5; error = none }

abbrev start : OllamaState
start = record { total_prompt_tokens = pos 0; total_completion_tokens = pos 0; call_counter = 7 }

-- One call is kept, and its id is the next one.
read_runs : (read_response cj answered start).0 ≡ record {
  content = some (codes "hm");
  tool_calls = some (
      arr (
        cons
          (obj (
            field (codes "id") (str (codes "call_8")) (
              field (codes "type") (str (codes "function")) (
                field
                  (codes "function")
                  (obj (
                    field
                      (codes "name")
                      (str (codes "time"))
                      (field (codes "arguments") (str (codes "{}")) end)))
                  end))))
          nil));
  error = none;
}
unfolding read_response equal get_field size item add_to add_field decimal
read_runs = refl

-- A count of tokens in the answer moves the total out of the range of an int.
abbrev full : OllamaState
full = record {
  total_prompt_tokens = pos 2147483647;
  total_completion_tokens = pos 0;
  call_counter = 7;
}

overflow_runs :
    (read_reply cj (obj (field (codes "prompt_eval_count") (num (pos 1)) end)) full).1 ≡ none
unfolding read_reply get_field equal int_result
overflow_runs = refl

abbrev clock : Tool Json (ℕ × Option OllamaState)
clock = record {
  name = some (codes "time");
  description = none;
  parameters_schema = none;
  execute = some (λ args w. (some (codes "noon"), w));
}

abbrev tools : Registry Json (ℕ × Option OllamaState)
tools = clock ∷ []

abbrev post : Bytes → Option Bytes → ℤ → ℕ → HttpResponse × ℕ
post url body timeout w = (answered, suc w)

abbrev empty_agent : Agent Json (ℕ × Option OllamaState)
empty_agent = record {
  provider = ollama_create cj post none none;
  messages = [];
  max_iterations = pos 3;
  history_limit = pos 0;
  system_parts = [];
  on_thinking = none;
}
