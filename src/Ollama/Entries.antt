-- ===== src/Ollama/Entries.antt =====
-- providers/ollama/ollama.c: the array of tool calls, and the numbers of their ids.
use vajra_ai.Prelude.{
  ℕ, suc, ◌+◌, ◌%◌, ◌^◌, ◌<◌, ◌≡◌, sym, ap, ◌∙◌, Option, none, some, [], arith, drop,
}
use vajra_ai.CString.{Bytes, codes}
use vajra_ai.CString.Number.{decimal, scan_digits, scan_digits-digits_onto, OutOfInt}
use vajra_ai.Cjson.{Cjson}
use vajra_ai.Cjson.Laws.{Laws, Items}
use vajra_ai.Prelude.Int.{ℤ, ◌+ℤ◌}
use vajra_ai.Agent.State.{LlmResponse}
use vajra_ai.Ollama.{OllamaState, next_counter, call_id}
use vajra_ai.Ollama.Calls.{IsCall}

-- The id of the entry at an index, where the counter stood at `start` before the response.
abbrev pub id_at : ℕ → ℕ → Bytes
id_at start i = call_id ((start + suc i) % 2 ^ 32)

module _ {J : Type 0} (cj : Cjson J) where
  abbrev pub IsEntry : ℕ → ℕ → Option J → Type 0
  IsEntry start i tc = IsCall cj (id_at start i) tc

  -- Calls that are attached are normalized calls with ids in order.
  abbrev pub GoodCalls : ℕ → Option J → Type 0
  GoodCalls start none = Unit {0}
  GoodCalls start (some arr) = Items cj (IsEntry start) arr × (0 < cj.array_size arr)

  -- The number of calls that a response has.
  abbrev pub count : Option J → ℕ
  count none = 0
  count (some arr) = cj.array_size arr

  -- A total of tokens leaves the range of an int.
  pub data Overflows (reply : Option J) (s : OllamaState) : Type 0 where
    prompt_overflows :
        {o n : J}
        → reply ≡ some o
        → cj.object_item o (codes "prompt_eval_count") ≡ some n
        → OutOfInt (s.total_prompt_tokens +ℤ cj.int_value n)
        → Overflows reply s
    completion_overflows :
        {o n : J}
        → reply ≡ some o
        → cj.object_item o (codes "eval_count") ≡ some n
        → OutOfInt (s.total_completion_tokens +ℤ cj.int_value n)
        → Overflows reply s

  -- The state behind a response: the number of the next id is that of before, moved on by the calls of
  -- the response; or a total has overflowed.
  abbrev pub NextState : Option J → OllamaState → Option J → Option OllamaState → Type 0
  NextState reply s made none = Overflows reply s
  NextState reply s made (some s') =
      (s'.call_counter + 1) % 2 ^ 32 ≡ (s.call_counter + suc (count made)) % 2 ^ 32

module _ {J : Type 0} (cj : Cjson J) (laws : Laws cj) (start : ℕ) where
  -- The array and the counter of the loop.
  abbrev Goes : J × ℕ → Type 0
  Goes s =
      Items cj (IsEntry cj start) s.0
      × (next_counter s.1 ≡ (start + suc (cj.array_size s.0)) % 2 ^ 32)

  -- The calls of a response, and the counter behind it.
  abbrev GoodMessage : LlmResponse J × ℕ → Type 0
  GoodMessage r =
      GoodCalls cj start r.0.tool_calls
      × ((r.1 + 1) % 2 ^ 32 ≡ (start + suc (count cj r.0.tool_calls)) % 2 ^ 32)

-- The rest of the function attaches what `read_message` has made, or nothing.
module _ {J : Type 0} (cj : Cjson J) (laws : Laws cj) (s : OllamaState) where
  abbrev Follows : Option J → LlmResponse J × Option OllamaState → Type 0
  Follows reply r =
      GoodCalls cj s.call_counter r.0.tool_calls × NextState cj reply s r.0.tool_calls r.1

  -- A total behind a count: the sum of ints, or an overflow.
  abbrev IsTotal : ℤ → Option J → Option ℤ → Type 0
  IsTotal total n none = (m : J) × (n ≡ some m) × OutOfInt (total +ℤ cj.int_value m)
  IsTotal total n (some sum) = Unit {0}

decimal-injective : (m n : ℕ) → m < 2 ^ 32 → n < 2 ^ 32 → decimal m ≡ decimal n → m ≡ n
unfolding decimal scan_digits
decimal-injective m n h k e =
    ap (λ (r : ℕ × Bytes). r.0)
      (sym (scan_digits-digits_onto 9 m [] (omega (arith, h)))
        ∙ ap (scan_digits 0) e
        ∙ scan_digits-digits_onto 9 n [] (omega (arith, k)))

-- Two entries of one response have different ids, if it has at most 2^32 entries.
pub id_at-injective :
    (start i j : ℕ) → i < 2 ^ 32 → j < 2 ^ 32 → id_at start i ≡ id_at start j → i ≡ j
id_at-injective start i j h k e =
    let same : (start + suc i) % 2 ^ 32 ≡ (start + suc j) % 2 ^ 32 =
      decimal-injective _ _ (omega arith) (omega arith) (ap (drop 5) e) in
    omega (arith, same)
