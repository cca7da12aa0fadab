-- ===== src/Openai/Reply.antt =====
-- providers/openai/openai.c: the tool calls that a response carries.
use mathlib.Core.Path.{subst}
use vajra_ai.Prelude.{
  ◌≡◌, refl, sym, ap, ◌∙◌, if_each, inl, inr, ℕ, zero, suc, ◌+◌, ◌<◌, true, false, ◌&&◌, ◌||◌,
  Option, none, some, ltb, leb, Bool-cases, ltb→lt,
}
use vajra_ai.CString.{Bytes, codes, equal_nocase, to_lower}
use vajra_ai.Memory.{
  Fault, signed_overflow, double_free, Outcome, done, fault, ◌>>=◌, Ensures, Ensures-bind,
}
use vajra_ai.Prelude.Int.{ℤ, ◌+ℤ◌}
use vajra_ai.CString.Number.{OutOfInt, int_result-Ensures}
use vajra_ai.Cjson.{Cjson, object_item?, value?, string_of}
use vajra_ai.Cjson.Laws.{Laws, Items, Items-create_array, Items-add_to_array}
use vajra_ai.Agent.State.{LlmResponse}
use vajra_ai.Agent.Wire.{string_at}
use vajra_ai.Http.{HttpResponse}
use vajra_ai.Ollama.{parse?}
use vajra_ai.Openai.{
  OpenaiState, add_string?, reply_call, add_function, add_call, add_calls, some_calls, reply_calls,
  read_message, read_success, first_message, is_failed_code, error_of, error_answer, read_error,
  recover, tokens_of, with_usage, add_usage, recover_text, read_status, or_status, read_http,
  status_error,
}
use vajra_ai.Openai.Recover.{IsRecovered, GoodRecovery, IsDoubleFree, recover_from-GoodRecovery}

module _ {J : Type 0} (cj : Cjson J) where
  -- A call with a function whose arguments are a text, as parse_tool_arguments reads them.
  pub record HasFunction (tc : Option J) : Type 0 where
    pub func : J
    pub args : Bytes
    pub func_is : object_item? tc (λ j. cj.object_item j (codes "function")) ≡ some func
    pub args_is : string_at cj (some func) (codes "arguments") ≡ some args

  -- No calls, or an array of such calls that is not empty.
  abbrev pub FunctionCalls : Option J → Type 0
  FunctionCalls none = Unit {0}
  FunctionCalls (some calls) = Items cj (λ i tc. HasFunction tc) calls × (0 < cj.array_size calls)

  HasFunction-IsRecovered : (tc : Option J) → IsRecovered cj tc → HasFunction tc
  HasFunction-IsRecovered tc r = record {
    func = r.norm.func;
    args = r.args;
    func_is = r.norm.func_is;
    args_is = r.norm.args_is;
  }

  FunctionCalls-error_of :
      (default : Bytes) (best : Option Bytes) → FunctionCalls (error_of cj default best).tool_calls
  FunctionCalls-error_of default none = tt
  FunctionCalls-error_of default (some best) = tt

  FunctionCalls-error_answer :
      (default : Bytes) (err_json : J) (r : Option J × ℕ)
      → GoodRecovery cj r
      → FunctionCalls (error_answer cj default err_json r).0.tool_calls
  FunctionCalls-error_answer default err_json (none, counter) h = FunctionCalls-error_of default _
  FunctionCalls-error_answer default err_json (some calls, counter) (items, there) = (
    record {
      is_array = items.is_array;
      entry = λ i lt. HasFunction-IsRecovered (cj.array_item calls i) (items.entry i lt);
    },
    there,
  )

  -- What may go wrong: an array is freed twice behind a status of an error, or the usage of the answer moves a total of tokens out
  -- of the range of an int.
  pub data Faults (http : HttpResponse) (s : OpenaiState) : Fault → Type 0 where
    twice :
        (ltb http.status_code 200 || leb 300 http.status_code) ≡ true → Faults http s double_free
    prompt_overflows :
        {reply usage : J}
        → parse? cj http.body ≡ some reply
        → cj.object_item reply (codes "usage") ≡ some usage
        → OutOfInt (s.total_prompt_tokens +ℤ tokens_of cj usage (codes "prompt_tokens"))
        → Faults http s signed_overflow
    completion_overflows :
        {reply usage : J}
        → parse? cj http.body ≡ some reply
        → cj.object_item reply (codes "usage") ≡ some usage
        → OutOfInt (s.total_completion_tokens +ℤ tokens_of cj usage (codes "completion_tokens"))
        → Faults http s signed_overflow

module _ {J : Type 0} (cj : Cjson J) (laws : Laws cj) where
  -- An object with at most one field of another name.
  added? :
      (key other : Bytes) (s : Option Bytes)
      → equal_nocase key other ≡ false
      → (cj.is_object (add_string? cj cj.create_object key s) ≡ true)
        × (cj.object_item (add_string? cj cj.create_object key s) other ≡ none)
  added? key other none e = (laws.new_object, laws.new_object_empty other)
  added? key other (some s) e =
      let a = laws.add_string_lem cj.create_object key s laws.new_object in
      (a.stays_object, a.miss other e ∙ laws.new_object_empty other)

  HasFunction-reply_call :
      (id name : Option Bytes) (args : Bytes) → HasFunction cj (some (reply_call cj id name args))
  unfolding reply_call equal_nocase to_lower
  HasFunction-reply_call id name args =
      let with_id = added? (codes "id") (codes "function") id refl in
      let with_name = added? (codes "name") (codes "arguments") name refl in
      let norm_tc =
        laws.add_string_lem (add_string? cj cj.create_object (codes "id") id) (codes "type")
          (codes "function") with_id.0 in
      let norm_func =
        laws.add_string_lem (add_string? cj cj.create_object (codes "name") name)
          (codes "arguments") args with_name.0 in
      let whole = laws.add_item_lem _ (codes "function") _ norm_tc.stays_object in
      record {
        func = _;
        args = args;
        func_is = whole.hit (norm_tc.miss (codes "function") refl ∙ with_id.1);
        args_is = ap (value? cj) (norm_func.hit with_name.1) ∙ laws.string_item_value args;
      }

  abbrev Calls : J → Type 0
  Calls arr = Items cj (λ i tc. HasFunction cj tc) arr

  Calls-add_function :
      (func tc : Option J) (arr : J) → Calls arr → Calls (add_function cj func tc arr)
  unfolding add_function
  Calls-add_function none tc arr h = h
  Calls-add_function (some func) tc arr h =
      Items-add_to_array cj laws (λ i tc. HasFunction cj tc) arr _ h (HasFunction-reply_call _ _ _)

  Calls-add_calls : (calls : J) (n i : ℕ) (arr : J) → Calls arr → Calls (add_calls cj calls n i arr)
  unfolding add_calls add_call
  Calls-add_calls calls zero i arr h = h
  Calls-add_calls calls (suc n) i arr h =
      Calls-add_calls calls n (i + 1) (add_call cj (cj.array_item calls i) arr)
        (Calls-add_function _ (cj.array_item calls i) arr h)

  FunctionCalls-some_calls : (arr : J) → Calls arr → FunctionCalls cj (some_calls cj arr)
  FunctionCalls-some_calls arr h = elim (Bool-cases (ltb 0 (cj.array_size arr))) [
    | inl e ↦ rw e (h, ltb→lt 0 (cj.array_size arr) e)
    | inr e ↦ rw e tt
  ]

  FunctionCalls-reply_calls : (calls : Option J) → FunctionCalls cj (reply_calls cj calls)
  unfolding reply_calls
  FunctionCalls-reply_calls none = tt
  FunctionCalls-reply_calls (some calls) =
      elim (Bool-cases (cj.is_array calls && ltb 0 (cj.array_size calls))) [
        | inl e ↦ rw e (
            FunctionCalls-some_calls _ (
              Calls-add_calls calls (cj.array_size calls) 0 cj.create_array
                (Items-create_array cj laws (λ i tc. HasFunction cj tc))))
        | inr e ↦ rw e tt
      ]

  FunctionCalls-read_message :
      (message : Option J) → FunctionCalls cj (read_message cj message).tool_calls
  unfolding read_message
  FunctionCalls-read_message none = tt
  FunctionCalls-read_message (some message) = FunctionCalls-reply_calls _

  FunctionCalls-read_success :
      (reply : Option J) → FunctionCalls cj (read_success cj reply).tool_calls
  unfolding read_success
  FunctionCalls-read_success none = tt
  FunctionCalls-read_success (some reply) = FunctionCalls-read_message (first_message cj reply)

  Good-recover_text :
      (text : Option Bytes) (counter : ℕ)
      → Ensures IsDoubleFree (GoodRecovery cj) (recover_text cj text counter)
  unfolding recover_text
  Good-recover_text none counter = tt
  Good-recover_text (some text) counter = recover_from-GoodRecovery cj laws text counter

  Good-recover :
      (err : Option J) (counter : ℕ)
      → Ensures IsDoubleFree (GoodRecovery cj) (recover cj err counter)
  unfolding recover
  Good-recover none counter = tt
  Good-recover (some err) counter =
      let fg = string_of cj (cj.object_item err (codes "failed_generation")) in
      elim (Bool-cases (is_failed_code (string_of cj (cj.object_item err (codes "code"))))) [
        | inl e ↦ rw e (Good-recover_text fg counter)
        | inr e ↦ rw e tt
      ]

  abbrev GoodAnswer {κ} : {S : Type κ} → LlmResponse J × S → Type 0
  GoodAnswer r = FunctionCalls cj r.0.tool_calls

  Good-read_error :
      (default : Bytes) (err_json : Option J) (counter : ℕ)
      → Ensures IsDoubleFree GoodAnswer (read_error cj default err_json counter)
  unfolding read_error
  Good-read_error default none counter = tt
  Good-read_error default (some err_json) counter =
      Ensures-bind IsDoubleFree (GoodRecovery cj) GoodAnswer
        (recover cj (cj.object_item err_json (codes "error")) counter) _ (Good-recover _ counter)
        (λ r good. FunctionCalls-error_answer cj default err_json r good)

  module _ (http : HttpResponse) (s : OpenaiState) where
    abbrev Adds : Outcome OpenaiState → Type 0
    Adds = Ensures (Faults cj http s) (λ s'. Unit {0})

    -- The two sums, one behind the other.
    Adds-sums :
        (p c : Outcome ℤ)
        → Ensures (Faults cj http s) (λ z. Unit {0}) p
        → Ensures (Faults cj http s) (λ z. Unit {0}) c
        → Adds (
            p >>= λ prompt. c >>= λ completion.
            done (record s { total_prompt_tokens = prompt; total_completion_tokens = completion }))
    Adds-sums (fault e) c h k = h
    Adds-sums (done p) (fault e) h k = k
    Adds-sums (done p) (done c) h k = tt

    -- A sum that overflows is that of a fault.
    Faults-sum :
        (z : ℤ) (r : Outcome ℤ)
        → (OutOfInt z → Faults cj http s signed_overflow)
        → Ensures (λ e. (e ≡ signed_overflow) × OutOfInt z) (λ r. r ≡ z) r
        → Ensures (Faults cj http s) (λ z. Unit {0}) r
    Faults-sum z (done x) f h = tt
    Faults-sum z (fault e) f (same, out) = subst (Faults cj http s) (sym same) (f out)

    Adds-with_usage :
        (reply : J) (usage : Option J)
        → parse? cj http.body ≡ some reply
        → ((u : J) → usage ≡ some u → cj.object_item reply (codes "usage") ≡ some u)
        → Adds (with_usage cj s usage)
    unfolding with_usage
    Adds-with_usage reply none is h = tt
    Adds-with_usage reply (some usage) is h =
        Adds-sums _ _
          (Faults-sum (s.total_prompt_tokens +ℤ tokens_of cj usage (codes "prompt_tokens")) _
            (λ out. prompt_overflows is (h usage refl) out)
            (int_result-Ensures
              (s.total_prompt_tokens +ℤ tokens_of cj usage (codes "prompt_tokens"))))
          (Faults-sum (s.total_completion_tokens +ℤ tokens_of cj usage (codes "completion_tokens"))
            _ (λ out. completion_overflows is (h usage refl) out)
            (int_result-Ensures
              (s.total_completion_tokens +ℤ tokens_of cj usage (codes "completion_tokens"))))

    usage_is :
        (reply : J) (message : Option J) (u : J)
        → object_item? message (λ m. cj.object_item reply (codes "usage")) ≡ some u
        → cj.object_item reply (codes "usage") ≡ some u
    usage_is reply none u h = cc
    usage_is reply (some m) u h = h

    Adds-add_usage : (reply : Option J) → parse? cj http.body ≡ reply → Adds (add_usage cj reply s)
    unfolding add_usage
    Adds-add_usage none is = tt
    Adds-add_usage (some reply) is =
        Adds-with_usage reply _ is (λ u h. usage_is reply (first_message cj reply) u h)

  -- An array that is freed twice is one of the faults.
  twice_lem :
      {A : Type 0} (P : A → Type 0) (http : HttpResponse) (s : OpenaiState) (r : Outcome A)
      → (ltb http.status_code 200 || leb 300 http.status_code) ≡ true
      → Ensures IsDoubleFree P r
      → Ensures (Faults cj http s) P r
  twice_lem P http s (done x) error h = h
  twice_lem P http s (fault e) error h = subst (Faults cj http s) (sym h) (twice error)

  Good-read_status :
      (base_url : Bytes) (http : HttpResponse) (s : OpenaiState)
      → Ensures (Faults cj http s) GoodAnswer (read_status cj base_url http s)
  unfolding read_status
  Good-read_status base_url http s =
      if_each (Ensures (Faults cj http s) GoodAnswer)
        (ltb http.status_code 200 || leb 300 http.status_code)
        (λ e. twice_lem GoodAnswer http s _ e (
          Ensures-bind IsDoubleFree GoodAnswer GoodAnswer
            (read_error cj (status_error base_url http.status_code) (parse? cj http.body)
              s.fg_counter)
            _
            (Good-read_error (status_error base_url http.status_code) (parse? cj http.body)
              s.fg_counter)
            (λ r good. good)))
        (λ e.
          Ensures-bind (Faults cj http s) (λ s'. Unit {0}) GoodAnswer
            (add_usage cj (parse? cj http.body) s) _
            (Adds-add_usage http s (parse? cj http.body) refl)
            (λ s' h. FunctionCalls-read_success (parse? cj http.body)))

  Good-or_status :
      (http : HttpResponse) (s : OpenaiState) (error : Option Bytes)
      (rest : Outcome (LlmResponse J × OpenaiState))
      → Ensures (Faults cj http s) GoodAnswer rest
      → Ensures (Faults cj http s) GoodAnswer (or_status cj error s rest)
  Good-or_status http s none rest h = h
  Good-or_status http s (some text) rest h = tt

  -- Whatever the server answers, the response is built, or an array is freed twice behind a status that
  -- is not 2xx, or the usage of the answer moves a total of tokens out of the range of an int. The tool
  -- calls of a response, if there are any, are an array that is not empty, each of whose items has a
  -- function with a text of arguments.
  pub read_http-FunctionCalls :
      (base_url : Bytes) (http : HttpResponse) (s : OpenaiState)
      → Ensures
          (Faults cj http s)
          (λ r. FunctionCalls cj r.0.tool_calls)
          (read_http cj base_url http s)
  unfolding read_http
  read_http-FunctionCalls base_url http s =
      Good-or_status http s http.error (read_status cj base_url http s)
        (Good-read_status base_url http s)
