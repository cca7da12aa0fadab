-- ===== src/Openai.antt =====
-- providers/openai/openai.c. `post` stands for http_post_json_auth_ex on an arbitrary world: the
-- URL, the body (NULL where printing failed), the value of the Authorization header, the further
-- headers, the timeout. The totals of tokens and the static counter of ids are a record of their own.
pub mod Recover
pub mod Reply
use vajra_ai.Prelude.{
  ℕ, zero, suc, ◌+◌, ◌%◌, ◌^◌, Bool, true, false, not, ◌&&◌, ◌||◌, Option, none, some, List, [],
  ◌∷◌, ◌++◌, ltb, leb, ◌==◌, if◌then◌else◌, take,
}
use vajra_ai.Prelude.Int.{ℤ, pos, ◌+ℤ◌}
use vajra_ai.CString.{Bytes, codes, equal}
use vajra_ai.CString.Number.{decimal, int_result}
use vajra_ai.Memory.{Outcome, done, fault, double_free, ◌>>=◌}
use vajra_ai.Cjson.{Cjson, object_item?, value?, string_of}
use vajra_ai.Agent.State.{MsgFormat, LlmResponse}
use vajra_ai.Http.{HttpResponse}
use vajra_ai.Providers.{ProviderSpec, registry_find_by_name, registry_detect, registry_resolve_url}
use vajra_ai.Ollama.{failed_response, next_counter, norm_call, plain, parse?, add_item?, some_tools}

-- `openai_data_t`, the part that never changes after openai_create.
pub record OpenaiData : Type 0 where
  pub base_url : Bytes
  pub model : Bytes
  pub api_key : Bytes
  pub spec : Option ProviderSpec

-- The part that changes, and `fg_counter`.
pub record OpenaiState : Type 0 where
  pub total_prompt_tokens : ℤ
  pub total_completion_tokens : ℤ
  pub fg_counter : ℕ

-- A text that is there and not empty.
abbrev pub non_empty : Option Bytes → Option Bytes
non_empty (some (c ∷ cs)) = some (c ∷ cs)
non_empty _ = none

abbrev pub or_else_text : Option Bytes → Option Bytes → Option Bytes
or_else_text none later = later
or_else_text (some text) later = some text

abbrev pub or_braces : Option Bytes → Bytes
or_braces none = codes "{}"
or_braces (some text) = text

-- `fg_%u` of a number, 32 bits wide.
abbrev pub fg_id : ℕ → Bytes
fg_id n = codes "fg_" ++ decimal n

abbrev pub is_failed_code : Option Bytes → Bool
is_failed_code none = false
is_failed_code (some code) = equal code (codes "tool_use_failed")

abbrev pub status_error : Bytes → ℕ → Bytes
status_error base_url code =
    take 255 (codes "HTTP " ++ (decimal code ++ (codes " from " ++ base_url)))

module _ {J : Type 0} (cj : Cjson J) where
  -- A value as a JSON text: that of a string, or the value printed.
  unfoldable pub value_text : J → Option Bytes
  value_text v = if cj.is_string v then cj.string_value v else cj.print v

  -- `arguments`, or what weak models write instead.
  abbrev either_args : Option J → Option J → Option J
  either_args none parameters = parameters
  either_args (some args) parameters = some args

  unfoldable pub recovered_args : Option J → Bytes
  unfolding value_text
  recovered_args none = codes "{}"
  recovered_args (some args) = if cj.is_null args then codes "{}" else or_braces (value_text args)

  -- The call of an entry with a name; none is there without.
  unfoldable pub named_entry : Option Bytes → Option J → J × ℕ → Option (J × ℕ)
  unfolding recovered_args
  named_entry none args s = none
  named_entry (some name) args (normalized, counter) = some (
    cj.add_to_array normalized
        (norm_call cj (fg_id (next_counter counter)) name (recovered_args args)),
    next_counter counter,
  )

  abbrev pub entry_name : Option J → Option Bytes
  entry_name entry = string_of cj (object_item? entry (λ e. cj.object_item e (codes "name")))

  unfoldable pub recover_entry : Option J → J × ℕ → Option (J × ℕ)
  unfolding named_entry string_of
  recover_entry entry s =
      named_entry (entry_name entry)
        (either_args (object_item? entry (λ e. cj.object_item e (codes "arguments")))
          (object_item? entry (λ e. cj.object_item e (codes "parameters"))))
        s

  abbrev or_stop : Option (J × ℕ) → J × ℕ → (J × ℕ → Bool × (J × ℕ)) → Bool × (J × ℕ)
  or_stop none s rest = (false, s)
  or_stop (some s') s rest = rest s'

  -- The loop over the entries of a parsed array, on the entries left: the flag `ok`, the array of
  -- calls, and the counter.
  unfoldable pub recover_entries : J → ℕ → ℕ → J × ℕ → Bool × (J × ℕ)
  unfolding recover_entry
  recover_entries parsed zero i s = (true, s)
  recover_entries parsed (suc n) i s =
      or_stop (recover_entry (cj.array_item parsed i) s) s (recover_entries parsed n (i + 1))

  -- Behind the loop: calls, or the second cJSON_Delete of the same array.
  unfoldable pub recovered : Bool × (J × ℕ) → Outcome (Option J × ℕ)
  recovered (good, (normalized, counter)) =
      if good && ltb 0 (cj.array_size normalized)
      then done (some normalized, counter)
      else fault double_free

  -- One `[` of the text: the array that begins there, or the search for the next one.
  unfoldable pub try_array : Option J → (ℕ → Outcome (Option J × ℕ)) → ℕ → Outcome (Option J × ℕ)
  unfolding recover_entries recovered
  try_array none rest counter = rest counter
  try_array (some parsed) rest counter =
      if cj.is_array parsed && ltb 0 (cj.array_size parsed)
      then recovered (recover_entries parsed (cj.array_size parsed) 0 (cj.create_array, counter))
      else rest counter

  -- The loop over the `[` of `failed_generation`.
  unfoldable pub recover_from : Bytes → ℕ → Outcome (Option J × ℕ)
  unfolding try_array
  recover_from [] counter = done (none, counter)
  recover_from (c ∷ cs) counter =
      let tried = try_array (cj.parse (c ∷ cs)) (recover_from cs) counter in
      let skipped = recover_from cs counter in if c == b'[' then tried else skipped

  unfoldable pub recover_text : Option Bytes → ℕ → Outcome (Option J × ℕ)
  unfolding recover_from
  recover_text none counter = done (none, counter)
  recover_text (some text) counter = recover_from text counter

  -- The recovery of an error object, where its code asks for it.
  unfoldable pub recover : Option J → ℕ → Outcome (Option J × ℕ)
  unfolding recover_text string_of equal
  recover none counter = done (none, counter)
  recover (some err) counter =
      if is_failed_code (string_of cj (cj.object_item err (codes "code")))
      then recover_text (string_of cj (cj.object_item err (codes "failed_generation"))) counter
      else done (none, counter)

  -- The message of an error object: that of its metadata comes first.
  unfoldable pub best_message : Option J → Option Bytes
  unfolding string_of
  best_message none = none
  best_message (some err) =
      or_else_text
        (non_empty (
          string_of cj (
            object_item? (cj.object_item err (codes "metadata"))
              (λ m. cj.object_item m (codes "raw")))))
        (non_empty (string_of cj (cj.object_item err (codes "message"))))

  abbrev pub error_of : Bytes → Option Bytes → LlmResponse J
  error_of default none = failed_response default
  error_of default (some best) = failed_response best

  -- The answer to an error in JSON.
  abbrev error_answer : Bytes → J → Option J × ℕ → LlmResponse J × ℕ
  error_answer default err_json (some calls, counter) =
      (record { content = none; tool_calls = some calls; error = none }, counter)
  error_answer default err_json (none, counter) = (
    error_of default (
        or_else_text (best_message (cj.object_item err_json (codes "error")))
          (non_empty (string_of cj (cj.object_item err_json (codes "message"))))),
    counter,
  )

  unfoldable pub read_error : Bytes → Option J → ℕ → Outcome (LlmResponse J × ℕ)
  unfolding recover best_message string_of
  read_error default none counter = done (failed_response default, counter)
  read_error default (some err_json) counter =
      recover (cj.object_item err_json (codes "error")) counter >>= λ r.
      done (error_answer default err_json r)

  -- An item that is added if the text is not NULL.
  abbrev add_string? : J → Bytes → Option Bytes → J
  add_string? o key none = o
  add_string? o key (some s) = cj.add_string o key s

  unfoldable pub call_args : Option J → Bytes
  unfolding value_text
  call_args none = codes "{}"
  call_args (some args) = or_braces (value_text args)

  -- A call of the reply, normalized; one without a function is left out.
  unfoldable pub reply_call : Option Bytes → Option Bytes → Bytes → J
  reply_call id name args =
      let norm_tc =
        cj.add_string (add_string? cj.create_object (codes "id") id) (codes "type")
          (codes "function") in
      let norm_func =
        cj.add_string (add_string? cj.create_object (codes "name") name) (codes "arguments") args in
      cj.add_item norm_tc (codes "function") norm_func

  unfoldable pub add_function : Option J → Option J → J → J
  unfolding call_args reply_call
  add_function none tc normalized = normalized
  add_function (some func) tc normalized = cj.add_to_array normalized (
      reply_call (value? cj (object_item? tc (λ c. cj.object_item c (codes "id"))))
        (value? cj (cj.object_item func (codes "name")))
        (call_args (cj.object_item func (codes "arguments"))))

  unfoldable pub add_call : Option J → J → J
  unfolding add_function
  add_call tc normalized =
      add_function (object_item? tc (λ c. cj.object_item c (codes "function"))) tc normalized

  unfoldable pub add_calls : J → ℕ → ℕ → J → J
  unfolding add_call
  add_calls calls zero i normalized = normalized
  add_calls calls (suc n) i normalized =
      add_calls calls n (i + 1) (add_call (cj.array_item calls i) normalized)

  abbrev some_calls : J → Option J
  some_calls normalized = if ltb 0 (cj.array_size normalized) then some normalized else none

  unfoldable pub reply_calls : Option J → Option J
  unfolding add_calls
  reply_calls none = none
  reply_calls (some calls) =
      if cj.is_array calls && ltb 0 (cj.array_size calls)
      then some_calls (add_calls calls (cj.array_size calls) 0 cj.create_array)
      else none

  -- `choices[0].message`
  abbrev message_in : Option J → Option J
  message_in none = none
  message_in (some choices) =
      if cj.is_array choices
      then object_item? (cj.array_item choices 0) (λ c. cj.object_item c (codes "message"))
      else none

  unfoldable pub first_message : J → Option J
  first_message reply = message_in (cj.object_item reply (codes "choices"))

  unfoldable pub read_message : Option J → LlmResponse J
  unfolding reply_calls string_of
  read_message none = failed_response (codes "No choices in response")
  read_message (some message) = record {
    content = non_empty (string_of cj (cj.object_item message (codes "content")));
    tool_calls = reply_calls (cj.object_item message (codes "tool_calls"));
    error = none;
  }

  unfoldable pub read_success : Option J → LlmResponse J
  unfolding read_message first_message
  read_success none = failed_response (codes "Failed to parse JSON response")
  read_success (some reply) = read_message (first_message reply)

  abbrev pub tokens_of : J → Bytes → ℤ
  tokens_of usage key = elim (cj.object_item usage key) [ none ↦ pos 0 | some n ↦ cj.int_value n ]

  -- The sum of two ints.
  abbrev pub add_int : ℤ → ℤ → Outcome ℤ
  add_int total n = int_result (total +ℤ n)

  -- The totals of a usage, if there is one.
  unfoldable pub with_usage : OpenaiState → Option J → Outcome OpenaiState
  unfolding int_result
  with_usage s none = done s
  with_usage s (some usage) =
      add_int s.total_prompt_tokens (tokens_of usage (codes "prompt_tokens")) >>= λ prompt.
      add_int s.total_completion_tokens (tokens_of usage (codes "completion_tokens"))
      >>= λ completion.
          done (record s { total_prompt_tokens = prompt; total_completion_tokens = completion })

  -- The totals, where the reply has a message.
  unfoldable pub add_usage : Option J → OpenaiState → Outcome OpenaiState
  unfolding first_message with_usage
  add_usage none s = done s
  add_usage (some reply) s =
      with_usage s (object_item? (first_message reply) (λ m. cj.object_item reply (codes "usage")))

  -- The part of the function behind the request.
  unfoldable pub read_status :
      Bytes → HttpResponse → OpenaiState → Outcome (LlmResponse J × OpenaiState)
  unfolding read_error read_success add_usage
  read_status base_url http s =
      if ltb http.status_code 200 || leb 300 http.status_code
      then (read_error (status_error base_url http.status_code) (parse? cj http.body) s.fg_counter
          >>= λ r. done (r.0, record s { fg_counter = r.1 }))
      else add_usage (parse? cj http.body) s >>= λ s'. done (read_success (parse? cj http.body), s')

  abbrev pub or_status :
      Option Bytes
      → OpenaiState
      → Outcome (LlmResponse J × OpenaiState)
      → Outcome (LlmResponse J × OpenaiState)
  or_status none s rest = rest
  or_status (some text) s rest = done (failed_response text, s)

  -- The part of the function behind the request.
  unfoldable pub read_http :
      Bytes → HttpResponse → OpenaiState → Outcome (LlmResponse J × OpenaiState)
  unfolding read_status
  read_http base_url http s = or_status http.error s (read_status base_url http s)

  abbrev add_choice : Bool → Option J → J → J
  add_choice true (some tools) body = cj.add_string body (codes "tool_choice") (codes "auto")
  add_choice _ _ body = body

  unfoldable pub openai_body : MsgFormat → Bytes → Option Bytes → Option Bytes → J
  openai_body fmt model messages_json tools_json =
      let with_model = cj.add_string cj.create_object (codes "model") model in
      let streamless = cj.add_bool with_model (codes "stream") false in
      let tools = some_tools cj (parse? cj tools_json) in
      add_choice fmt.send_tool_choice_auto tools (
        add_item? cj (add_item? cj streamless (codes "messages") (parse? cj messages_json))
          (codes "tools") tools)

-- "Bearer <key>", or NULL for a key that is empty.
abbrev pub auth_value : Bytes → Option Bytes
auth_value [] = none
auth_value (c ∷ cs) = some (take 511 (codes "Bearer " ++ c ∷ cs))

abbrev pub extra_of : Option ProviderSpec → Option (List Bytes)
extra_of none = none
extra_of (some spec) = elim spec.extra_headers [ [] ↦ none | _ ↦ some spec.extra_headers ]

module _ {J W : Type 0} (cj : Cjson J)
    (post : Bytes
      → Option Bytes
      → Option Bytes
      → Option (List Bytes)
      → ℤ
      → W
      → HttpResponse × W) where
  unfoldable pub openai_chat_complete :
      OpenaiData
      → MsgFormat
      → Option Bytes
      → Option Bytes
      → W × OpenaiState
      → Outcome (LlmResponse J × (W × OpenaiState))
  unfolding read_http openai_body
  openai_chat_complete priv fmt messages_json tools_json (w, s) =
      let body = cj.print (openai_body cj fmt priv.model messages_json tools_json) in
      let (http, w') =
        post (take 511 (priv.base_url ++ codes "/chat/completions")) body (auth_value priv.api_key)
          (extra_of priv.spec) (pos 120) w in
      read_http cj priv.base_url http s >>= λ r. done (r.0, (w', r.1))

-- `provider_t` as openai_create fills it, with its private data.
pub record OpenaiProvider : Type 0 where
  pub name : Bytes
  pub fmt : MsgFormat
  pub priv : OpenaiData

abbrev openai_fmt : MsgFormat
openai_fmt = record {
  tool_result_include_name = false;
  assistant_tool_call_empty_content = false;
  send_tool_choice_auto = true;
  tool_args_as_object = false;
}

abbrev text_or : Bytes → Option Bytes → Bytes
text_or default none = default
text_or default (some text) = text

abbrev or_spec : Option ProviderSpec → Option ProviderSpec → Option ProviderSpec
or_spec none later = later
or_spec (some spec) later = some spec

-- `api_key` if it is not empty, or the variable API_KEY.
abbrev pub key_or_env : Option Bytes → Option Bytes → Bytes
key_or_env (some (c ∷ cs)) env_key = c ∷ cs
key_or_env _ env_key = text_or [] env_key

unfoldable pub openai_create :
    Option Bytes → Option Bytes → Option Bytes → Option Bytes → Option Bytes → Option OpenaiProvider
unfolding registry_find_by_name registry_detect registry_resolve_url
openai_create env_key model api_url api_key provider_name =
    let spec = or_spec (registry_find_by_name provider_name) (registry_detect api_key api_url) in
    elim (registry_resolve_url spec api_url) [
      | none ↦ none
      | some url ↦ some record {
        name = text_or (codes "openai") provider_name;
        fmt = openai_fmt;
        priv = record {
          base_url = url;
          model = text_or (codes "gpt-4o") model;
          api_key = key_or_env api_key env_key;
          spec = spec;
        };
      }
    ]
