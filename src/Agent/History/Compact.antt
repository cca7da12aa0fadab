-- ===== src/Agent/History/Compact.antt =====
-- What `agent_compact_history` removes and what it leaves.
use vajra_ai.Prelude.{
  ℕ, zero, suc, ◌+◌, ◌-◌, ◌≤◌, ◌<◌, ◌≡◌, ◌⊎◌, inl, inr, refl, ap, ◌∙◌, true, false, some, List, [],
  ◌∷◌, ◌++◌, arith, ltb, leb, ltb→lt, lt→leb-false, length, take, drop, get_elem?, min, Bool-cases,
  length-append, length-take, length-drop,
}
use vajra_ai.Cjson.{Cjson}
use vajra_ai.Agent.State.{Message}
use vajra_ai.Agent.History.{has_tool_calls_at, walk_back, remove_count, agent_compact_history}

head-drop {ℓ} : {A : Type ℓ} (n : ℕ) (ys : List A) → get_elem? (drop n ys) 0 ≡ get_elem? ys n
head-drop zero [] = refl
head-drop zero (y ∷ ys) = refl
head-drop (suc n) [] = refl
head-drop (suc n) (y ∷ ys) = head-drop n ys

second-drop {ℓ} :
    {A : Type ℓ} (n : ℕ) (xs ys : List A)
    → 1 ≤ length xs
    → get_elem? (take 1 xs ++ drop n ys) 1 ≡ get_elem? ys n
second-drop n [] ys h = absurd (omega arith)
second-drop n (x ∷ xs) ys h = head-drop n ys

get_elem?-some-lt {ℓ} :
    {A : Type ℓ} (xs : List A) (i : ℕ) {a : A} → get_elem? xs i ≡ some a → i < length xs
get_elem?-some-lt [] i h = cc
get_elem?-some-lt (x ∷ xs) zero h = omega arith
get_elem?-some-lt (x ∷ xs) (suc i) h = omega (arith, get_elem?-some-lt xs i h)

module _ {J : Type 0} (cj : Cjson J) where
  -- Where the walk may stop: at the first removable message, or behind one without tool calls.
  abbrev IsStop : List (Message J) → ℕ → Type 0
  IsStop ms c = (c ≡ 2) ⊎ (has_tool_calls_at cj ms (c - 1) ≡ false)

  walk_back-IsStop :
      (ms : List (Message J)) (c : ℕ)
      → 2 ≤ c
      → (2 ≤ walk_back cj ms c) × (walk_back cj ms c ≤ c) × IsStop ms (walk_back cj ms c)
  unfolding walk_back
  walk_back-IsStop ms zero h = absurd (omega arith)
  walk_back-IsStop ms (suc c) h = elim (Bool-cases (ltb 2 (suc c))) [
    | inr small ↦ rw small (h, omega arith, inl (ground arith))
    | inl big ↦ rw big (elim (Bool-cases (has_tool_calls_at cj ms c)) [
      | inl calls ↦ rw calls (
          let (a, b, s) = walk_back-IsStop ms c (omega (arith, ltb→lt 2 (suc c) big)) in
          (a, omega arith, s))
      | inr plain ↦
          rw plain
            (h, omega arith, inr (ap (has_tool_calls_at cj ms) {y = c} (omega arith) ∙ plain))
    ])
  ]

  -- `ms'` is `ms` without the messages from index 1 up to `cut_end`.
  pub record IsCompactionOf (limit : ℕ) (ms ms' : List (Message J)) : Type 0 where
    pub cut_end : ℕ
    pub removes_one : 2 ≤ cut_end
    pub in_quarter : cut_end ≤ 1 + remove_count cj limit
    pub in_list : cut_end ≤ length ms
    pub result : ms' ≡ take 1 ms ++ drop cut_end ms
    pub stop : IsStop ms cut_end

  leb_1-false : (n : ℕ) → 2 ≤ n → leb n 1 ≡ false
  leb_1-false n h = ground arith

  -- A compaction of two or more messages keeps message 0, removes at least one message and at most
  -- a quarter of the limit (or one), all next to message 0, and keeps the rest in order. The last
  -- removed message has no tool calls unless it is the only one.
  pub agent_compact_history-IsCompactionOf :
      (limit : ℕ) (ms : List (Message J))
      → 2 ≤ length ms
      → IsCompactionOf limit ms (agent_compact_history cj limit ms)
  unfolding agent_compact_history
  agent_compact_history-IsCompactionOf limit ms h =
      let start = min (1 + remove_count cj limit) (length ms) in
      let (a, b, s) = walk_back-IsStop ms start (ground arith) in
      record {
        cut_end = walk_back cj ms start;
        removes_one = a;
        in_quarter = ground (arith, b);
        in_list = ground (arith, b);
        result = rw (leb_1-false (walk_back cj ms start) a) refl;
        stop = s;
      }

  walk_back-le : (ms : List (Message J)) (c : ℕ) → walk_back cj ms c ≤ c
  unfolding walk_back
  walk_back-le ms zero = omega arith
  walk_back-le ms (suc c) = ground (arith, walk_back-le ms c)

  leb_1-true : (n : ℕ) → n ≤ 1 → leb n 1 ≡ true
  leb_1-true n h = ground arith

  -- With fewer than two messages there is nothing to remove.
  pub agent_compact_history-short :
      (limit : ℕ) (ms : List (Message J)) → length ms < 2 → agent_compact_history cj limit ms ≡ ms
  unfolding agent_compact_history
  agent_compact_history-short limit ms h =
      let start = min (1 + remove_count cj limit) (length ms) in
      rw (leb_1-true (walk_back cj ms start) (omega (arith, walk_back-le ms start))) refl

  -- The count falls by what is cut.
  pub length-agent_compact_history :
      (limit : ℕ) (ms ms' : List (Message J))
      → 2 ≤ length ms
      → (c : IsCompactionOf limit ms ms') → length ms' + c.cut_end ≡ length ms + 1
  length-agent_compact_history limit ms ms' h c = omega (
    arith,
    ap length c.result,
    length-append (take 1 ms) (drop c.cut_end ms),
    length-take 1 ms,
    length-drop c.cut_end ms,
    c.in_list,
  )

  -- The cut looks only at the last message that it removes. Where that one has no tool calls, the
  -- message behind the quarter comes to stand next to message 0, also a tool result whose
  -- assistant message, with the tool calls, is among the removed ones.
  pub agent_compact_history-next :
      (limit : ℕ) (ms : List (Message J)) (t : Message J)
      → has_tool_calls_at cj ms (remove_count cj limit) ≡ false
      → get_elem? ms (1 + remove_count cj limit) ≡ some t
      → get_elem? (agent_compact_history cj limit ms) 1 ≡ some t
  unfolding agent_compact_history walk_back
  agent_compact_history-next limit ms t plain at_cut =
      let q = remove_count cj limit in
      let inside = get_elem?-some-lt ms (1 + q) at_cut in
      let start : min (1 + q) (length ms) ≡ suc q = ground (arith, inside) in
      let stays : walk_back cj ms (suc q) ≡ suc q = rw plain (ground arith) in
      let kept : leb (walk_back cj ms (suc q)) 1 ≡ false = rw stays (ground arith) in
      rw start (
        rw stays (
          rw (lt→leb-false 1 (suc q) (ground arith)) (
            second-drop (suc q) ms ms (omega arith)
            ∙ ap (get_elem? ms) {y = 1 + q} (omega arith)
            ∙ at_cut)))
