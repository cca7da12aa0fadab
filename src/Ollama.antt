-- ===== src/Ollama.antt =====
-- providers/ollama/ollama.c. `post` stands for http_post_json on an arbitrary world: the URL, the
-- body (NULL where printing failed), the timeout. What the function keeps in its private data and in
-- its static counter is a record of its own.
pub mod Calls
pub mod Entries
pub mod Turn
use vajra_ai.Prelude.{
  ℕ, zero, suc, ◌+◌, ◌%◌, ◌^◌, Bool, true, false, not, ◌&&◌, ◌||◌, Option, none, some, List, [],
  ◌∷◌, ◌++◌, ltb, ◌==◌, if◌then◌else◌, length, take,
}
use vajra_ai.Prelude.Int.{ℤ, pos, ◌+ℤ◌}
use vajra_ai.CString.{Bytes, codes, equal}
use vajra_ai.CString.Number.{decimal, int_result}
use vajra_ai.Memory.{Outcome, done, fault}
use vajra_ai.Cjson.{Cjson, object_item?, string_of}
use vajra_ai.Agent.State.{MsgFormat, LlmResponse, Provider}
use vajra_ai.Http.{HttpResponse}

-- `ollama_data_t` without the texts that never change, and `call_counter`. The totals are ints. An
-- overflow of one of them is undefined in C: what is left then is no state, written `none`.
pub record OllamaState : Type 0 where
  pub total_prompt_tokens : ℤ
  pub total_completion_tokens : ℤ
  pub call_counter : ℕ

abbrev pub failed_response : {J : Type 0} → Bytes → LlmResponse J
failed_response text = record { content = none; tool_calls = none; error = some text }

-- The dash of the C literals, in UTF-8.
abbrev pub em_dash : Bytes
em_dash = 0xe2 ∷ 0x80 ∷ 0x94 ∷ []

abbrev stopped_early : Bytes → Bytes
stopped_early reason = take 127 (
    codes "Generation stopped early (done_reason: "
    ++ (reason
        ++ (codes ") "
            ++ (em_dash ++ codes " try a shorter prompt or a model with a larger context window"))))

abbrev all_invalid : Bytes
all_invalid =
    codes "Model requested tool calls but all had invalid arguments. Try rephrasing your request."

-- `call_%u` of the next number, 32 bits wide.
abbrev pub next_counter : ℕ → ℕ
next_counter n = (n + 1) % 2 ^ 32

abbrev pub call_id : ℕ → Bytes
call_id n = codes "call_" ++ decimal n

-- Neither of the two reasons of a reply that is whole.
unfoldable pub is_truncated : Bytes → Bool
is_truncated reason = not (equal reason (codes "stop")) && not (equal reason (codes "tool_calls"))

-- A sum of ints, if it is one.
abbrev pub if_int : Outcome ℤ → Option ℤ
if_int (done n) = some n
if_int (fault e) = none

abbrev pub with_totals : ℕ → Option ℤ → Option ℤ → Option OllamaState
with_totals counter (some prompt) (some completion) = some (record {
  total_prompt_tokens = prompt;
  total_completion_tokens = completion;
  call_counter = counter;
})
with_totals counter _ _ = none

module _ {J : Type 0} (cj : Cjson J) where
  -- A text that parses.
  abbrev pub if_parsed : Bytes → Option J → Option Bytes
  if_parsed text none = none
  if_parsed text (some _) = some text

  unfoldable pub checked : Option Bytes → Option Bytes
  checked none = none
  checked (some text) = if_parsed text (cj.parse text)

  -- The arguments as a JSON text; `none` where the call is skipped.
  unfoldable pub args_text : Option J → Option Bytes
  unfolding checked
  args_text none = some (codes "{}")
  args_text (some args) =
      if cj.is_string args then checked (cj.string_value args) else checked (cj.print args)

  unfoldable pub with_args : Bytes → Option Bytes → Option (Bytes × Bytes)
  with_args name none = none
  with_args name (some args) = some (name, args)

  -- A name that is there and not empty.
  unfoldable pub named_call : Option Bytes → Option J → Option (Bytes × Bytes)
  unfolding args_text with_args
  named_call (some (c ∷ cs)) args = with_args (c ∷ cs) (args_text args)
  named_call _ args = none

  -- The name and the arguments of one item, if it is kept.
  unfoldable pub kept_call : Option J → Option (Bytes × Bytes)
  unfolding named_call string_of
  kept_call none = none
  kept_call (some func) =
      named_call (string_of cj (cj.object_item func (codes "name")))
        (cj.object_item func (codes "arguments"))

  -- The normalized entry.
  unfoldable pub norm_call : Bytes → Bytes → Bytes → J
  norm_call id name args =
      let with_id = cj.add_string cj.create_object (codes "id") id in
      let norm_tc = cj.add_string with_id (codes "type") (codes "function") in
      let with_name = cj.add_string cj.create_object (codes "name") name in
      cj.add_item norm_tc (codes "function") (cj.add_string with_name (codes "arguments") args)

  unfoldable pub add_kept : Option (Bytes × Bytes) → J × ℕ → J × ℕ
  unfolding norm_call
  add_kept none (arr, counter) = (arr, counter)
  add_kept (some (name, args)) (arr, counter) = (
    cj.add_to_array arr (norm_call (call_id (next_counter counter)) name args),
    next_counter counter,
  )

  -- `for (i = 0; i < size; i++)`, on the rounds left: the array and the counter.
  unfoldable pub norm_calls : J → ℕ → ℕ → J × ℕ → J × ℕ
  unfolding kept_call add_kept
  norm_calls calls zero i s = s
  norm_calls calls (suc n) i s =
      let func =
        object_item? (cj.array_item calls i) (λ tc. cj.object_item tc (codes "function")) in
      norm_calls calls n (i + 1) (add_kept (kept_call func) s)

  -- The array is attached only if something is in it.
  unfoldable pub attach : Option Bytes → J → LlmResponse J
  attach content normalized =
      if ltb 0 (cj.array_size normalized)
      then record { content = content; tool_calls = some normalized; error = none }
      else record {
        content = content;
        tool_calls = none;
        error = elim content [ none ↦ some all_invalid | some _ ↦ none ];
      }

  unfoldable pub plain : Option Bytes → LlmResponse J
  plain content = record { content = content; tool_calls = none; error = none }

  -- The tool calls of a message, if they are an array that is not empty.
  unfoldable pub message_calls : Option Bytes → Option J → ℕ → LlmResponse J × ℕ
  unfolding norm_calls attach plain
  message_calls content none counter = (plain content, counter)
  message_calls content (some calls) counter =
      if cj.is_array calls && ltb 0 (cj.array_size calls)
      then (let (arr, counter') =
            norm_calls calls (cj.array_size calls) 0 (cj.create_array, counter) in
          (attach content arr, counter'))
      else (plain content, counter)

  unfoldable pub read_message : Option J → ℕ → LlmResponse J × ℕ
  unfolding message_calls plain string_of
  read_message none counter = (plain none, counter)
  read_message (some message) counter =
      message_calls (string_of cj (cj.object_item message (codes "content")))
        (cj.object_item message (codes "tool_calls")) counter

  abbrev pub add_tokens : ℤ → Option J → Option ℤ
  add_tokens total none = some total
  add_tokens total (some n) = if_int (int_result (total +ℤ cj.int_value n))

  -- The end of the function: the message, and the token counts.
  unfoldable pub read_reply : J → OllamaState → LlmResponse J × Option OllamaState
  unfolding read_message int_result
  read_reply reply s =
      let (resp, counter) = read_message (cj.object_item reply (codes "message")) s.call_counter in
      (
        resp,
        with_totals counter
            (add_tokens s.total_prompt_tokens (cj.object_item reply (codes "prompt_eval_count")))
            (add_tokens s.total_completion_tokens (cj.object_item reply (codes "eval_count"))),
      )

  -- Are there tool calls in a reply that was cut short?
  unfoldable pub has_truncated_tools : J → Bool
  has_truncated_tools reply =
      elim (object_item? (cj.object_item reply (codes "message"))
        (λ m. cj.object_item m (codes "tool_calls"))) [
          | none ↦ false
          | some calls ↦ ltb 0 (cj.array_size calls)
        ]

  -- The tests of `done_reason`, on its text.
  unfoldable pub read_finished : Option Bytes → J → OllamaState → LlmResponse J × Option OllamaState
  unfolding is_truncated has_truncated_tools read_reply
  read_finished none reply s = read_reply reply s
  read_finished (some reason) reply s =
      if is_truncated reason && has_truncated_tools reply
      then (failed_response (stopped_early reason), some s)
      else read_reply reply s

  -- The `error` of the reply comes first.
  unfoldable pub read_object : Option Bytes → J → OllamaState → LlmResponse J × Option OllamaState
  unfolding read_finished string_of
  read_object (some text) reply s = (failed_response text, some s)
  read_object none reply s =
      read_finished (string_of cj (cj.object_item reply (codes "done_reason"))) reply s

  unfoldable pub read_json : Option J → OllamaState → LlmResponse J × Option OllamaState
  unfolding read_object string_of
  read_json none s =
      (failed_response (codes "Failed to parse Ollama response (invalid JSON)"), some s)
  read_json (some reply) s =
      read_object (string_of cj (cj.object_item reply (codes "error"))) reply s

  -- cJSON_Parse, which returns NULL on NULL.
  abbrev pub parse? : Option Bytes → Option J
  parse? none = none
  parse? (some text) = cj.parse text

  unfoldable pub read_response : HttpResponse → OllamaState → LlmResponse J × Option OllamaState
  unfolding read_json
  read_response http s = elim http.error [
    | some text ↦ (failed_response text, some s)
    | none ↦ read_json (parse? http.body) s
  ]

  -- An item that is added if it is there.
  abbrev pub add_item? : J → Bytes → Option J → J
  add_item? o key none = o
  add_item? o key (some v) = cj.add_item o key v

  -- The tools, if they parse and are not empty.
  abbrev pub some_tools : Option J → Option J
  some_tools none = none
  some_tools (some tools) = if ltb 0 (cj.array_size tools) then some tools else none

  unfoldable pub request_body : Bytes → Option Bytes → Option Bytes → J
  request_body model messages_json tools_json =
      let with_model = cj.add_string cj.create_object (codes "model") model in
      let streamless = cj.add_bool with_model (codes "stream") false in
      add_item? (add_item? streamless (codes "messages") (parse? messages_json)) (codes "tools")
        (some_tools (parse? tools_json))

module _ {J W : Type 0} (cj : Cjson J)
    (post : Bytes → Option Bytes → ℤ → W → HttpResponse × W) where
  -- Nothing is said of a call behind an overflow.
  unfoldable pub ollama_chat_complete :
      Bytes
      → Bytes
      → Option Bytes
      → Option Bytes
      → W × Option OllamaState
      → LlmResponse J × (W × Option OllamaState)
  unfolding read_response request_body
  ollama_chat_complete base_url model messages_json tools_json (w, none) =
      (failed_response [], (w, none))
  ollama_chat_complete base_url model messages_json tools_json (w, some s) =
      let body = cj.print (request_body cj model messages_json tools_json) in
      let (http, w') = post (take 511 (base_url ++ codes "/api/chat")) body (pos 120) w in
      let (resp, s') = read_response cj http s in (resp, (w', s'))

  abbrev text_or : Bytes → Option Bytes → Bytes
  text_or default none = default
  text_or default (some text) = text

  unfoldable pub ollama_create : Option Bytes → Option Bytes → Provider J (W × Option OllamaState)
  unfolding ollama_chat_complete
  ollama_create model base_url =
      let model_text = text_or (codes "llama3.2") model in
      record {
        name = codes "ollama";
        model = model_text;
        fmt = record {
          tool_result_include_name = true;
          assistant_tool_call_empty_content = false;
          send_tool_choice_auto = false;
          tool_args_as_object = true;
        };
        chat_complete =
            ollama_chat_complete (text_or (codes "http://localhost:11434") base_url) model_text;
      }
