-- ===== src/Agent/History/Bounds.antt =====
-- `agent_add_message`: the write stays in the array, and message 0 stays.
use vajra_ai.Prelude.{
  ℕ, zero, suc, ◌+◌, ◌≤◌, ◌<◌, ◌≡◌, inl, inr, refl, sym, ap, ◌∙◌, List, [], ◌∷◌, ◌++◌, arith, leb,
  if◌then◌else◌, length, take, drop, Bool-cases, lt→ltb, lt→leb-false, leb→le, leb-false→lt, ◌-◌,
  take-take, take-eq_of_le, length-append, take-append_left,
}
use vajra_ai.Memory.{done}
use vajra_ai.Cjson.{Cjson}
use vajra_ai.Agent.State.{Message, max_messages}
use vajra_ai.Agent.History.{
  agent_compact_history, agent_add_message, pop_last, pop_times, roll_back,
}
use vajra_ai.Agent.History.Compact.{
  agent_compact_history-IsCompactionOf, agent_compact_history-short, length-agent_compact_history,
}

take_1-append {ℓ} :
    {A : Type ℓ} (xs ys : List A) → 2 ≤ length xs → take 1 (take 1 xs ++ ys) ≡ take 1 xs
take_1-append [] ys h = absurd (omega arith)
take_1-append (x ∷ xs) ys h = refl

length_pos_of_take {ℓ} :
    {A : Type ℓ} (xs ys : List A) → take 1 xs ≡ take 1 ys → 1 ≤ length ys → 1 ≤ length xs
length_pos_of_take xs [] e h = absurd (omega arith)
length_pos_of_take [] (y ∷ ys) e h = cc
length_pos_of_take (x ∷ xs) (y ∷ ys) e h = omega arith

module _ {J : Type 0} (cj : Cjson J) where
  -- After the test for the limit there is room for one message.
  abbrev make_room : ℕ → List (Message J) → List (Message J)
  make_room limit ms = if leb limit (length ms) then agent_compact_history cj limit ms else ms

  pub compact-length :
      (limit : ℕ) (ms : List (Message J))
      → 2 ≤ length ms
      → length (agent_compact_history cj limit ms) + 1 ≤ length ms
  compact-length limit ms h =
      let c = agent_compact_history-IsCompactionOf cj limit ms h in
      omega (arith, length-agent_compact_history cj limit ms _ h c, c.removes_one)

  make_room-length :
      (limit : ℕ) (ms : List (Message J))
      → limit ≤ max_messages
      → length ms ≤ max_messages
      → length (make_room limit ms) < max_messages
  make_room-length limit ms l h = elim (Bool-cases (leb limit (length ms))) [
    | inr small ↦ rw small (ground arith)
    | inl full ↦ rw full (elim (Bool-cases (leb 2 (length ms))) [
      | inl many ↦ omega (arith, compact-length limit ms (ground arith))
      | inr few ↦ rw (agent_compact_history-short cj limit ms (ground arith)) (ground arith)
    ])
  ]

  -- The write of a new message is inside the array of 128, and the count stays at most 128.
  pub agent_add_message-lt :
      (limit : ℕ) (ms : List (Message J)) (m : Message J)
      → limit ≤ max_messages
      → length ms ≤ max_messages
      → (ms' : List (Message J)) × (agent_add_message cj limit ms m ≡ done ms')
        × (length ms' ≤ max_messages)
        × (ms' ≡ make_room limit ms ++ m ∷ [])
  unfolding agent_add_message
  agent_add_message-lt limit ms m l h =
      let small = make_room-length limit ms l h in
      (
        make_room limit ms ++ m ∷ [],
        rw (lt→ltb _ _ small) refl,
        omega (arith, length-append (make_room limit ms) (m ∷ []), small),
        refl,
      )

  compact-head :
      (limit : ℕ) (ms : List (Message J)) → take 1 (agent_compact_history cj limit ms) ≡ take 1 ms
  compact-head limit ms = elim (Bool-cases (leb 2 (length ms))) [
    | inl many ↦
        let c = agent_compact_history-IsCompactionOf cj limit ms (leb→le 2 (length ms) many) in
        rw c.result (take_1-append ms (drop c.cut_end ms) (leb→le 2 (length ms) many))
    | inr few ↦ rw (agent_compact_history-short cj limit ms (leb-false→lt 2 (length ms) few)) refl
  ]

  make_room-head : (limit : ℕ) (ms : List (Message J)) → take 1 (make_room limit ms) ≡ take 1 ms
  make_room-head limit ms = elim (Bool-cases (leb limit (length ms))) [
    | inl full ↦ rw full (compact-head limit ms)
    | inr room ↦ rw room refl
  ]

  -- Message 0, the system message, stays where it is when a message is added.
  pub agent_add_message-head :
      (limit : ℕ) (ms ms' : List (Message J)) (m : Message J)
      → 1 ≤ length ms
      → agent_add_message cj limit ms m ≡ done ms'
      → (take 1 ms' ≡ take 1 ms) × (1 ≤ length ms')
  unfolding agent_add_message
  agent_add_message-head limit ms ms' m h e =
      let head = make_room-head limit ms in
      let some_left = length_pos_of_take (make_room limit ms) ms head h in
      ground (
        arith,
        length-append (make_room limit ms) (m ∷ []),
        take-append_left 1 (make_room limit ms) (m ∷ []),
        head,
        some_left,
      )

  -- Below the limit nothing is removed.
  pub agent_add_message-below :
      (limit : ℕ) (ms : List (Message J)) (m : Message J)
      → limit ≤ max_messages
      → length ms < limit
      → agent_add_message cj limit ms m ≡ done (ms ++ m ∷ [])
  unfolding agent_add_message
  agent_add_message-below limit ms m l h =
      rw (lt→leb-false (length ms) limit h)
        (rw (lt→ltb (length ms) max_messages (omega arith)) refl)

module _ {ℓ} {A : Type ℓ} where
  length-pop_last : (ms : List A) → length (pop_last ms) ≡ length ms - 1
  unfolding pop_last
  length-pop_last [] = refl
  length-pop_last (x ∷ []) = refl
  length-pop_last (x ∷ y ∷ ys) = omega (arith, length-pop_last (y ∷ ys))

  pop_last-eq-take : (ms : List A) → pop_last ms ≡ take (length ms - 1) ms
  unfolding pop_last
  pop_last-eq-take [] = refl
  pop_last-eq-take (x ∷ []) = refl
  pop_last-eq-take (x ∷ y ∷ ys) =
      ap (◌∷◌ x) (pop_last-eq-take (y ∷ ys))
      ∙ ap (λ (n : ℕ). take n (x ∷ y ∷ ys)) {x = suc (length (y ∷ ys) - 1)} (omega arith)

  pop_times-eq-take : (n : ℕ) (ms : List A) → pop_times n ms ≡ take (length ms - n) ms
  unfolding pop_times
  pop_times-eq-take zero ms = sym (take-eq_of_le (length ms - 0) ms (omega arith))
  pop_times-eq-take (suc n) ms =
      pop_times-eq-take n (pop_last ms)
      ∙ ap (λ (k : ℕ). take k (pop_last ms)) {y = length ms - suc n}
          (omega (arith, length-pop_last ms))
      ∙ ap (take (length ms - suc n)) (pop_last-eq-take ms)
      ∙ take-take (length ms - suc n) (length ms - 1) ms (omega arith)

  -- The roll-back keeps the first `pre_turn_count` messages, and all if there are fewer.
  pub roll_back-eq-take : (pre : ℕ) (ms : List A) → roll_back pre ms ≡ take pre ms
  unfolding roll_back
  roll_back-eq-take pre ms = elim (Bool-cases (leb pre (length ms))) [
    | inl le ↦
        pop_times-eq-take (length ms - pre) ms
        ∙ ap (λ (k : ℕ). take k ms) {y = pre} (omega (arith, leb→le pre (length ms) le))
    | inr gt ↦
        let short = leb-false→lt pre (length ms) gt in
        pop_times-eq-take (length ms - pre) ms
        ∙ take-eq_of_le (length ms - (length ms - pre)) ms (omega (arith, short))
        ∙ sym (take-eq_of_le pre ms (omega (arith, short)))
  ]
