-- ===== src/Agent/History.antt =====
-- agent/agent.c, `agent_compact_history`, `agent_add_message` and the roll-back of a turn, over
-- the list of the messages in use.
pub mod Compact
pub mod Bounds
use vajra_ai.Prelude.{
  ℕ, zero, suc, ◌+◌, ◌-◌, ◌/◌, Bool, true, false, ◌&&◌, Option, none, some, List, [], ◌∷◌, ◌++◌,
  ltb, leb, if◌then◌else◌, length, take, drop, get_elem?, min,
}
use vajra_ai.Memory.{Outcome, done, fault, out_of_bounds}
use vajra_ai.Cjson.{Cjson}
use vajra_ai.Agent.State.{Message, max_messages}

module _ {J : Type 0} (cj : Cjson J) where
  unfoldable pub message_has_tool_calls : Message J → Bool
  message_has_tool_calls m = elim m.tool_calls [ none ↦ false | some c ↦ ltb 0 (cj.array_size c) ]

  -- The test at an index of the array.
  unfoldable pub has_tool_calls_at : List (Message J) → ℕ → Bool
  unfolding message_has_tool_calls
  has_tool_calls_at ms i = elim (get_elem? ms i) [
    | none ↦ false
    | some m ↦ message_has_tool_calls m
  ]

  -- `while (cut_end > keep + 1 && message_has_tool_calls(&messages[cut_end - 1])) cut_end--`
  unfoldable pub walk_back : List (Message J) → ℕ → ℕ
  unfolding has_tool_calls_at
  walk_back ms zero = zero
  walk_back ms (suc c) = if ltb 2 (suc c) && has_tool_calls_at ms c then walk_back ms c else suc c

  -- The messages that a compaction means to remove: a quarter of the limit, and at least one.
  abbrev pub remove_count : ℕ → ℕ
  remove_count limit = if ltb (limit / 4) 1 then 1 else limit / 4

  -- `agent_compact_history`: messages 1 up to the cut are removed, and message 0 stays.
  unfoldable pub agent_compact_history : ℕ → List (Message J) → List (Message J)
  unfolding walk_back
  agent_compact_history limit ms =
      let cut_end = walk_back ms (min (1 + remove_count limit) (length ms)) in
      if leb cut_end 1 then ms else take 1 ms ++ drop cut_end ms

  -- `agent_add_message`: the write to `messages[message_count]` must lie in the array.
  unfoldable pub agent_add_message : ℕ → List (Message J) → Message J → Outcome (List (Message J))
  unfolding agent_compact_history
  agent_add_message limit ms m =
      let room = if leb limit (length ms) then agent_compact_history limit ms else ms in
      if ltb (length room) max_messages then done (room ++ m ∷ []) else fault out_of_bounds

-- `agent_pop_last_message`
unfoldable pub pop_last {ℓ} : {A : Type ℓ} → List A → List A
pop_last [] = []
pop_last (x ∷ []) = []
pop_last (x ∷ y ∷ ys) = x ∷ pop_last (y ∷ ys)

-- `while (message_count > pre_turn_count) agent_pop_last_message(agent)`, on the rounds left.
unfoldable pub pop_times {ℓ} : {A : Type ℓ} → ℕ → List A → List A
unfolding pop_last
pop_times zero ms = ms
pop_times (suc n) ms = pop_times n (pop_last ms)

unfoldable pub roll_back {ℓ} : {A : Type ℓ} → ℕ → List A → List A
unfolding pop_times
roll_back pre_turn_count ms = pop_times (length ms - pre_turn_count) ms
