-- ===== src/Agent/Chat/Safe.antt =====
-- A turn of `agent_chat` stays inside the message array, keeps the system message, and returns.
use vajra_ai.Prelude.{
  ℕ, ◌≤◌, ◌<◌, ◌≡◌, refl, ◌∙◌, Bool, true, false, Option, none, some, List, [], ◌∷◌, arith, length,
  take, Option-cases, Bool-cases, inl, inr, take-take, length-take,
}
use vajra_ai.Prelude.Int.{ℤ}
use vajra_ai.CString.{Bytes, codes, equal}
use vajra_ai.Memory.{
  signed_overflow, double_free, Fault, null_pointer, out_of_bounds, Outcome, done, fault, Ensures,
  Ensures-bind,
}
use vajra_ai.Cjson.{Cjson}
use vajra_ai.ToolRegistry.{Tool, Registry, check_tool, same_name, tool_find}
use vajra_ai.Agent.State.{max_messages, Message, Agent, limit_of, build_system_prompt}
use vajra_ai.Agent.History.{roll_back}
use vajra_ai.Agent.History.Bounds.{
  agent_add_message-lt, agent_add_message-head, agent_add_message-below, roll_back-eq-take,
}
use vajra_ai.Agent.Chat.{
  Turn, text_message, run_tool, dispatch, call_name, ask, with_system, agent_chat,
}
use vajra_ai.Agent.Chat.Keeps.{ProviderRuns, AddKeeps, agent_chat-Keeps}

pub limit_of_bounds : (m : ℤ) → (1 ≤ limit_of m) × (limit_of m ≤ max_messages)
unfolding limit_of
limit_of_bounds m = ground arith

-- The message that a turn with this prompt and history has at index 0.
abbrev pub first_message : {J : Type 0} → Bytes → List (Message J) → List (Message J)
first_message prompt [] = text_message (codes "system") (some prompt) ∷ []
first_message prompt (m ∷ ms) = m ∷ []

-- The history fits its array, and `first` is its message 0.
pub record IsValid {J : Type 0} (first ms : List (Message J)) : Type 0 where
  pub head : take 1 ms ≡ first
  pub full : 1 ≤ length ms
  pub fits : length ms ≤ max_messages

module _ {J W : Type 0} (cj : Cjson J) (tools : Registry J W) (agent : Agent J W)
    (Q : Fault → Type 0) where
  add-IsValid : (first : List (Message J)) → AddKeeps cj tools agent Q (IsValid first)
  add-IsValid first ms m v =
      let limit = limit_of agent.history_limit in
      let (_, le) = limit_of_bounds agent.history_limit in
      let (ms', e, fits, _) = agent_add_message-lt cj limit ms m le v.fits in
      let (head, full) = agent_add_message-head cj limit ms ms' m v.full e in
      rw e (record { head = head ∙ v.head; full = full; fits = fits })

  back-IsValid :
      (first ms : List (Message J))
      → IsValid first ms
      → (pre : ℕ) → 1 ≤ pre
      → IsValid first (roll_back pre ms)
  back-IsValid first ms v pre h = rw (roll_back-eq-take pre ms) (record {
    head = take-take 1 pre ms h ∙ v.head;
    full = omega (arith, length-take pre ms, v.full);
    fits = omega (arith, length-take pre ms, v.fits);
  })

  start-IsValid :
      (prompt : Bytes) (ms : List (Message J))
      → length ms ≤ max_messages
      → Ensures Q
          (IsValid (first_message prompt ms))
          (with_system cj tools (limit_of agent.history_limit) prompt ms)
  unfolding with_system
  start-IsValid prompt [] fits =
      let (low, le) = limit_of_bounds agent.history_limit in
      rw (agent_add_message-below cj (limit_of agent.history_limit) [] _ le low)
        (record { head = refl; full = omega arith; fits = omega arith })
  start-IsValid prompt (m ∷ ms) fits = record { head = refl; full = omega arith; fits = fits }

  abbrev prompt : Bytes
  prompt = build_system_prompt agent.system_parts

  turn-IsValid :
      ProviderRuns cj tools agent Q
      → (c : ℕ) (cs : Bytes) (w : W) → length agent.messages ≤ max_messages
      → Ensures Q
          (λ out. IsValid (first_message prompt agent.messages) (out.1).messages)
          (agent_chat cj tools agent (some (c ∷ cs)) w)
  turn-IsValid runs c cs w fits =
      let first = first_message prompt agent.messages in
      agent_chat-Keeps cj tools agent Q (IsValid first) (add-IsValid first) runs c cs w
        (start-IsValid prompt agent.messages fits) (back-IsValid first) (λ ms v. v.full)

abbrev pub NoOverrun : Fault → Type 0
NoOverrun null_pointer = Unit {0}
NoOverrun out_of_bounds = ⊥
NoOverrun signed_overflow = Unit {0}
NoOverrun double_free = Unit {0}

same_name-NoOverrun : (a b : Option Bytes) → Ensures NoOverrun (λ _. Unit {0}) (same_name a b)
unfolding same_name
same_name-NoOverrun none b = tt
same_name-NoOverrun (some a) none = tt
same_name-NoOverrun (some a) (some b) = tt

abbrev pub NoFault : Fault → Type 0
NoFault e = ⊥

from_NoFault :
    {A : Type 0} (P : A → Type 0) (m : Outcome A)
    → Ensures NoFault P m
    → (a : A) × (m ≡ done a) × P a
from_NoFault P (done a) h = (a, refl, h)
from_NoFault P (fault e) h = absurd h

module _ {J W : Type 0} where
  check_tool-NoOverrun :
      (t : Tool J W) (rest : Outcome (Option (Tool J W))) (same : Outcome Bool)
      → Ensures NoOverrun (λ _. Unit {0}) same
      → Ensures NoOverrun (λ _. Unit {0}) rest
      → Ensures NoOverrun (λ _. Unit {0}) (check_tool t rest same)
  unfolding check_tool
  check_tool-NoOverrun t rest (fault e) h k = h
  check_tool-NoOverrun t rest (done true) h k = tt
  check_tool-NoOverrun t rest (done false) h k = k

  tool_find-NoOverrun :
      (tools : Registry J W) (name : Option Bytes)
      → Ensures NoOverrun (λ _. Unit {0}) (tool_find tools name)
  unfolding tool_find
  tool_find-NoOverrun [] name = tt
  tool_find-NoOverrun (t ∷ ts) name =
      check_tool-NoOverrun t (tool_find ts name) (same_name t.name name)
        (same_name-NoOverrun t.name name) (tool_find-NoOverrun ts name)

  run_tool-NoOverrun :
      (cj : Cjson J) (tools : Registry J W) (found : Option (Tool J W)) (func : Option J) (w : W)
      → Ensures NoOverrun (λ _. Unit {0}) (run_tool cj tools found func w)
  unfolding run_tool
  run_tool-NoOverrun cj tools none func w = tt
  run_tool-NoOverrun cj tools (some t) func w = elim (Option-cases t.execute) [
    | inl e ↦ rw e tt
    | inr (f, e) ↦ rw e tt
  ]

  dispatch-NoOverrun :
      (cj : Cjson J) (tools : Registry J W) (tc : Option J) (w : W)
      → Ensures NoOverrun (λ _. Unit {0}) (dispatch cj tools tc w)
  unfolding dispatch
  dispatch-NoOverrun cj tools tc w =
      Ensures-bind NoOverrun (λ _. Unit {0}) _ (tool_find tools (call_name cj tools tc)) _
        (tool_find-NoOverrun tools (call_name cj tools tc))
        λ found _. run_tool-NoOverrun cj tools found _ w

  -- A turn never writes past the array of 128 messages, whatever the provider and the tools answer:
  -- if it returns, the history fits the array, is not empty, and begins with the message 0 that it
  -- began with, or with the system prompt if it was empty.
  pub agent_chat-NoOverrun :
      (cj : Cjson J) (tools : Registry J W) (agent : Agent J W) (c : ℕ) (cs : Bytes) (w : W)
      → length agent.messages ≤ max_messages
      → Ensures NoOverrun
          (λ out.
            IsValid
              (first_message (build_system_prompt agent.system_parts) agent.messages)
              (out.1).messages)
          (agent_chat cj tools agent (some (c ∷ cs)) w)
  agent_chat-NoOverrun cj tools agent c cs w fits =
      turn-IsValid cj tools agent NoOverrun
        (λ iter s calls e i lt w'. dispatch-NoOverrun cj tools (cj.array_item calls i) w') c cs w
        fits

  -- Every tool can be looked up by name and run.
  abbrev pub AllRunnable : Registry J W → Type 0
  AllRunnable [] = Unit {0}
  AllRunnable (t ∷ ts) =
      ((n : Bytes) × (t.name ≡ some n))
      × ((f : J → W → Option Bytes × W) × (t.execute ≡ some f))
      × AllRunnable ts

  abbrev IsRunnable : Option (Tool J W) → Type 0
  IsRunnable none = Unit {0}
  IsRunnable (some t) = (f : J → W → Option Bytes × W) × (t.execute ≡ some f)

  tool_find-NoFault :
      (tools : Registry J W) (n : Bytes)
      → AllRunnable tools
      → Ensures NoFault IsRunnable (tool_find tools (some n))
  unfolding tool_find
  tool_find-NoFault [] n h = tt
  tool_find-NoFault (t ∷ ts) n ((m, e), run, h) = rw e (elim (Bool-cases (equal m n)) [
    | inl same ↦ rw same run
    | inr other ↦ rw other (tool_find-NoFault ts n h)
  ])

  run_tool-NoFault :
      (cj : Cjson J) (tools : Registry J W) (found : Option (Tool J W)) (func : Option J) (w : W)
      → IsRunnable found
      → Ensures NoFault (λ _. Unit {0}) (run_tool cj tools found func w)
  unfolding run_tool
  run_tool-NoFault cj tools none func w h = tt
  run_tool-NoFault cj tools (some t) func w (f, e) = rw e tt

  -- The provider gives every tool call a function with a name.
  abbrev pub NamesCalls : Cjson J → Registry J W → Agent J W → Type 0
  NamesCalls cj tools agent =
      (iter : ℕ) (s : Turn J W) (calls : J)
      → (ask cj tools agent iter s).0.tool_calls ≡ some calls
      → (i : ℕ) → i < cj.array_size calls
      → (n : Bytes) × (call_name cj tools (cj.array_item calls i) ≡ some n)

  dispatch-NoFault :
      (cj : Cjson J) (tools : Registry J W) (tc : Option J) (n : Bytes) (w : W)
      → AllRunnable tools
      → call_name cj tools tc ≡ some n
      → Ensures NoFault (λ _. Unit {0}) (dispatch cj tools tc w)
  unfolding dispatch
  dispatch-NoFault cj tools tc n w h e =
      Ensures-bind NoFault IsRunnable _ (tool_find tools (call_name cj tools tc)) _
        (rw e (tool_find-NoFault tools n h)) λ found k. run_tool-NoFault cj tools found _ w k

  pub NamesCalls-ProviderRuns :
      (cj : Cjson J) (tools : Registry J W) (agent : Agent J W)
      → AllRunnable tools
      → NamesCalls cj tools agent
      → ProviderRuns cj tools agent NoFault
  NamesCalls-ProviderRuns cj tools agent run names iter s calls e i lt w' =
      let (n, named) = names iter s calls e i lt in
      dispatch-NoFault cj tools (cj.array_item calls i) n w' run named

  -- If every registered tool can be run and the provider names the function of every call, a turn
  -- returns, and leaves a history that fits the
  -- array and has its message 0.
  pub agent_chat-returns :
      (cj : Cjson J) (tools : Registry J W) (agent : Agent J W) (c : ℕ) (cs : Bytes) (w : W)
      → length agent.messages ≤ max_messages
      → AllRunnable tools
      → NamesCalls cj tools agent
      → (out : Option Bytes × Agent J W × W) × (agent_chat cj tools agent (some (c ∷ cs)) w
          ≡ done out)
        × IsValid
            (first_message (build_system_prompt agent.system_parts) agent.messages)
            (out.1).messages
  agent_chat-returns cj tools agent c cs w fits run names =
      from_NoFault _ (agent_chat cj tools agent (some (c ∷ cs)) w) (
        turn-IsValid cj tools agent NoFault (NamesCalls-ProviderRuns cj tools agent run names) c cs
          w fits)

  -- A tool call that names no function reads through NULL as soon as one tool is registered: the
  -- name is compared before the code that allows for its absence.
  pub dispatch_no_name :
      (cj : Cjson J) (tools : Registry J W) (tc : Option J) (w : W)
      → 1 ≤ length tools
      → call_name cj tools tc ≡ none
      → dispatch cj tools tc w ≡ fault null_pointer
  unfolding dispatch tool_find
  dispatch_no_name cj [] tc w h e = absurd (omega arith)
  dispatch_no_name cj (t ∷ ts) tc w h e = elim (Option-cases t.name) [
    | inl no_name ↦ rw (e, no_name) refl
    | inr (n, named) ↦ rw (e, named) refl
  ]
