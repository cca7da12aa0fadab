-- ===== src/Tests/Openai.antt =====
-- providers/openai/openai.c
use vajra_ai.Prelude.{◌≡◌, refl, true, false, Option, some, none, arith, if◌then◌else◌}
use vajra_ai.Prelude.Int.{pos}
use vajra_ai.CString.{Bytes, codes, equal, equal_nocase, has_prefix, strstr}
use vajra_ai.CString.Number.{decimal}
use vajra_ai.Memory.{done, fault, double_free, Ensures}
use vajra_ai.Cjson.{Cjson, string_of}
use vajra_ai.Ollama.{norm_call}
use vajra_ai.Http.{HttpResponse}
use vajra_ai.Providers.{groq}
use vajra_ai.Openai.{OpenaiState, OpenaiProvider, read_http, recover_from, openai_create}
use vajra_ai.Openai.Recover.{recover_from-frees_twice}
use vajra_ai.Openai.Reply.{FunctionCalls, Faults, read_http-FunctionCalls}
use vajra_ai.Tests.Json.{
  Json, parsing, str, obj, arr, cons, nil, end, field, size, item, get_field, add_to, add_field,
}
use vajra_ai.Tests.Json.Laws.{parsing-Laws}

abbrev entry : Bytes → Json
entry name =
    obj (field (codes "name") (str name) (field (codes "parameters") (str (codes "{}")) end))

-- The body of a reply with status 400, and the arrays that its generation holds.
abbrev failed : Bytes → Json
failed generation = obj (
    field (codes "error")
      (obj (
        field (codes "code") (str (codes "tool_use_failed"))
          (field (codes "failed_generation") (str generation) end)))
      end)

abbrev others : Bytes → Option Json
others s =
    if equal s (codes "named")
    then some (failed (codes "so [1"))
    else if equal s (codes "nameless")
    then some (failed (codes "so [2"))
    else if equal s (codes "[1")
    then some (arr (cons (entry (codes "time")) nil))
    else if equal s (codes "[2")
    then some (arr (cons (entry (codes "time")) (cons (obj end) nil)))
    else none

abbrev cj : Cjson Json
cj = parsing others

abbrev answered : Bytes → HttpResponse
answered body = record { status_code = 400; body = some body; body_len = 5; error = none }

abbrev start : OpenaiState
start = record { total_prompt_tokens = pos 0; total_completion_tokens = pos 0; fg_counter = 4 }

abbrev recovered_call : Json
recovered_call = obj (
    field (codes "id") (str (codes "fg_5")) (
      field (codes "type") (str (codes "function")) (
        field (codes "function")
          (obj (
            field (codes "name") (str (codes "time"))
              (field (codes "arguments") (str (codes "{}")) end)))
          end)))

-- A call is recovered from an answer with an error.
recover_runs :
    read_http cj (codes "u") (answered (codes "named")) start
    ≡ done (
      record { content = none; tool_calls = some (arr (cons recovered_call nil)); error = none },
      record start { fg_counter = 5 },
    )
unfolding read_http equal get_field size item add_to add_field decimal norm_call
recover_runs = refl

-- An entry without a name: the array is freed twice.
nameless_runs : read_http cj (codes "u") (answered (codes "nameless")) start ≡ fault double_free
unfolding read_http equal get_field size item add_to add_field decimal norm_call
nameless_runs = refl

read_http-FunctionCalls_example :
    Ensures
      (Faults cj (answered (codes "named")) start)
      (λ r. FunctionCalls cj r.0.tool_calls)
      (read_http cj (codes "u") (answered (codes "named")) start)
read_http-FunctionCalls_example =
    read_http-FunctionCalls cj (parsing-Laws others) (codes "u") (answered (codes "named")) start

recover_from-frees_twice_example : recover_from cj (codes "so [2") 4 ≡ fault double_free
unfolding string_of
recover_from-frees_twice_example =
    recover_from-frees_twice cj (codes "so ") (codes "2") 4 1
      (arr (cons (entry (codes "time")) (cons (obj end) nil))) refl (unfold equal in refl) refl
      (unfold size in omega arith) (unfold item get_field in refl)

abbrev groq_data : Option OpenaiProvider
groq_data = openai_create none none none (some (codes "gsk_x")) none

create_runs :
    groq_data
    ≡ some record {
      name = codes "openai";
      fmt = record {
        tool_result_include_name = false;
        assistant_tool_call_empty_content = false;
        send_tool_choice_auto = true;
        tool_args_as_object = false;
      };
      priv = record {
        base_url = codes "https://api.groq.com/openai/v1";
        model = codes "gpt-4o";
        api_key = codes "gsk_x";
        spec = some groq;
      };
    }
unfolding openai_create has_prefix strstr equal_nocase
create_runs = refl
