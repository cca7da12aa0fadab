-- ===== src/Agent/Chat/Keeps.antt =====
-- Invariants of the history over a whole turn, from the step that adds one message. `Q` says which
-- faults may happen.
use vajra_ai.Prelude.{
  ℕ, zero, suc, ◌+◌, ◌≤◌, ◌<◌, ◌≡◌, refl, Option, none, some, List, ◌∷◌, arith, length,
}
use vajra_ai.Prelude.Int.{pos_part}
use vajra_ai.CString.{Bytes}
use vajra_ai.Memory.{Fault, Outcome, Ensures, Ensures-bind}
use vajra_ai.Cjson.{Cjson}
use vajra_ai.ToolRegistry.{Registry}
use vajra_ai.Agent.State.{Message, LlmResponse, Agent, limit_of, build_system_prompt}
use vajra_ai.Agent.History.{agent_add_message, roll_back}
use vajra_ai.Agent.Chat.{
  Turn, user_message, dispatch, run_calls, pending_calls, ask, respond, chat_loop, with_system,
  agent_chat,
}

-- The history with its system message, where a turn starts.
abbrev pub started :
    {J W : Type 0} → Cjson J → Registry J W → Agent J W → Outcome (List (Message J))
started cj tools agent =
    with_system cj tools (limit_of agent.history_limit) (build_system_prompt agent.system_parts)
      agent.messages

module _ {J W : Type 0} (cj : Cjson J) (tools : Registry J W) (agent : Agent J W)
    (Q : Fault → Type 0) where
  -- A call whose tool is looked up and run with no fault but those of `Q`.
  abbrev pub Runs : Option J → Type 0
  Runs tc = (w : W) → Ensures Q (λ (_ : Option Bytes × W). Unit {0}) (dispatch cj tools tc w)

  -- So are all calls that the provider may ask for.
  abbrev pub ProviderRuns : Type 0
  ProviderRuns =
      (iter : ℕ) (s : Turn J W) (calls : J)
      → (ask cj tools agent iter s).0.tool_calls ≡ some calls
      → (i : ℕ) → i < cj.array_size calls
      → Runs (cj.array_item calls i)

  -- Adding a message keeps the invariant.
  abbrev pub AddKeeps : (List (Message J) → Type 0) → Type 0
  AddKeeps Inv =
      (ms : List (Message J)) (m : Message J)
      → Inv ms
      → Ensures Q Inv (agent_add_message cj (limit_of agent.history_limit) ms m)

  module _ (Inv : List (Message J) → Type 0) (add_ok : AddKeeps Inv) (calls_ok : ProviderRuns) where
    run_calls-Keeps :
        (calls : J) (n t : ℕ) (s : Turn J W)
        → ((i : ℕ) → i < t + n → Runs (cj.array_item calls i))
        → Inv s.messages
        → Ensures Q
            (λ s'. Inv s'.messages)
            (run_calls cj tools (limit_of agent.history_limit) calls n t s)
    unfolding run_calls
    run_calls-Keeps calls zero t s ok h = h
    run_calls-Keeps calls (suc n) t s ok h =
        Ensures-bind Q (λ _. Unit {0}) _ (dispatch cj tools (cj.array_item calls t) s.world) _
          (ok t (omega arith) s.world)
          λ answer _.
            Ensures-bind Q Inv _ (agent_add_message cj (limit_of agent.history_limit) s.messages _)
              _ (add_ok s.messages _ h)
              λ ms k. run_calls-Keeps calls n (t + 1) _ (λ i lt. ok i (omega arith)) k

    abbrev KeepsReply : Outcome (Option Bytes × Turn J W) → Type 0
    KeepsReply = Ensures Q (λ out. Inv (out.1).messages)

    respond-Keeps :
        (pre : ℕ) (next : Turn J W → Outcome (Option Bytes × Turn J W)) (resp : LlmResponse J)
        (s : Turn J W) (error : Option Bytes) (calls : Option J)
        → ((ms : List (Message J)) → Inv ms → Inv (roll_back pre ms))
        → ((s' : Turn J W) → Inv s'.messages → KeepsReply (next s'))
        → ((c : J) → calls ≡ some c → (i : ℕ) → i < cj.array_size c → Runs (cj.array_item c i))
        → Inv s.messages
        → KeepsReply (respond cj tools (limit_of agent.history_limit) pre next resp s error calls)
    unfolding respond
    respond-Keeps pre next resp s (some e) calls back k ok h = back s.messages h
    respond-Keeps pre next resp s none (some c) back k ok h =
        Ensures-bind Q Inv _ (agent_add_message cj (limit_of agent.history_limit) s.messages _) _
          (add_ok s.messages _ h)
          λ ms hm.
            Ensures-bind Q (λ s'. Inv s'.messages) _
              (run_calls cj tools (limit_of agent.history_limit) c (cj.array_size c) 0 _) _
              (run_calls-Keeps c (cj.array_size c) 0 _ (λ i lt. ok c refl i (omega arith)) hm) k
    respond-Keeps pre next resp s none none back k ok h =
        Ensures-bind Q Inv _ (agent_add_message cj (limit_of agent.history_limit) s.messages _) _
          (add_ok s.messages _ h) λ ms hm. hm

    pending_calls-some :
        (resp : LlmResponse J) (c : J)
        → pending_calls cj tools resp ≡ some c
        → resp.tool_calls ≡ some c
    pending_calls-some resp c h = ground arith

    pub chat_loop-Keeps :
        (pre n iter : ℕ) (s : Turn J W)
        → ((ms : List (Message J)) → Inv ms → Inv (roll_back pre ms))
        → Inv s.messages
        → KeepsReply (chat_loop cj tools agent pre n iter s)
    unfolding chat_loop
    chat_loop-Keeps pre zero iter s back h = back s.messages h
    chat_loop-Keeps pre (suc n) iter s back h =
        let (resp, w) = ask cj tools agent iter s in
        respond-Keeps pre (chat_loop cj tools agent pre n (iter + 1)) resp (record s { world = w })
          resp.error (pending_calls cj tools resp) back
          (λ s' k. chat_loop-Keeps pre n (iter + 1) s' back k)
          (λ c e i lt. calls_ok iter s c (pending_calls-some resp c e) i lt) h

    pub agent_chat-Keeps :
        (c : ℕ) (cs : Bytes) (w : W)
        → Ensures Q Inv (started cj tools agent)
        → ((ms : List (Message J)) → Inv ms → (pre : ℕ) → 1 ≤ pre → Inv (roll_back pre ms))
        → ((ms : List (Message J)) → Inv ms → 1 ≤ length ms)
        → Ensures Q (λ out. Inv (out.1).messages) (agent_chat cj tools agent (some (c ∷ cs)) w)
    unfolding agent_chat
    agent_chat-Keeps c cs w start back full =
        Ensures-bind Q Inv _ (started cj tools agent) _ start λ ms h.
          Ensures-bind Q Inv _
            (agent_add_message cj (limit_of agent.history_limit) ms (user_message (c ∷ cs))) _
            (add_ok ms _ h)
            λ ms' h'.
              Ensures-bind Q (λ out. Inv (out.1).messages) _
                (chat_loop cj tools agent (length ms) (pos_part agent.max_iterations) 0 _) _
                (chat_loop-Keeps (length ms) (pos_part agent.max_iterations) 0 _
                  (λ ms'' k. back ms'' k (length ms) (full ms h)) h')
                λ out k. k
