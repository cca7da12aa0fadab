-- ===== src/Agent/Chat/Atomic.antt =====
-- A turn of `agent_chat` is all or nothing while the history stays below its limit, and is not at
-- the limit.
use vajra_ai.Prelude.{
  ℕ, zero, suc, ◌+◌, ◌*◌, ◌≤◌, ◌<◌, ◌≡◌, refl, sym, ap, ◌∙◌, Option, none, some, List, [], ◌∷◌,
  ◌++◌, arith, length, take, inl, inr, ◌⊎◌, length-append, take-append_self, append_assoc,
  append-nil, take-eq_of_le, le→leb, lt→ltb,
}
use vajra_ai.Prelude.Int.{pos, pos_part}
use vajra_ai.CString.{Bytes, codes}
use vajra_ai.Memory.{Fault, Outcome, done, Ensures, Ensures-bind}
use vajra_ai.Cjson.{Cjson}
use vajra_ai.ToolRegistry.{Registry}
use vajra_ai.Agent.State.{max_messages, Message, LlmResponse, Agent, limit_of, build_system_prompt}
use vajra_ai.Agent.History.{agent_add_message, agent_compact_history, roll_back}
use vajra_ai.Agent.History.Bounds.{compact-length, agent_add_message-below, roll_back-eq-take}
use vajra_ai.Agent.Think.{strip_think_tags}
use vajra_ai.Agent.Chat.{
  Turn, text_message, user_message, dispatch, run_calls, pending_calls, ask, respond, chat_loop,
  with_system, agent_chat,
}
use vajra_ai.Agent.Chat.Keeps.{Runs, ProviderRuns}
use vajra_ai.Agent.Chat.Safe.{limit_of_bounds}

-- `ms` is `start` with more messages behind it.
abbrev pub Extends : {J : Type 0} → List (Message J) → List (Message J) → Type 0
Extends {J} start ms = (more : List (Message J)) × (ms ≡ start ++ more)

Extends-add :
    {J : Type 0} (start ms : List (Message J)) (m : Message J)
    → Extends start ms
    → Extends start (ms ++ m ∷ [])
Extends-add start ms m (more, e) = (more ++ m ∷ [], rw e (append_assoc start more (m ∷ [])))

module _ {J W : Type 0} (cj : Cjson J) (tools : Registry J W) (agent : Agent J W)
    (Q : Fault → Type 0) where
  abbrev limit : ℕ
  limit = limit_of agent.history_limit

  -- No response asks for more than `k` tool calls.
  abbrev pub FewCalls : ℕ → Type 0
  FewCalls k =
      (iter : ℕ) (s : Turn J W) (calls : J)
      → (ask cj tools agent iter s).0.tool_calls ≡ some calls
      → cj.array_size calls ≤ k

  add-eq :
      (ms : List (Message J)) (m : Message J)
      → length ms < limit
      → agent_add_message cj limit ms m ≡ done (ms ++ m ∷ [])
  add-eq ms m h = agent_add_message-below cj limit ms m (limit_of_bounds agent.history_limit).1 h

  -- A state of the turn: the history extends `start` and has a given length.
  abbrev At : List (Message J) → ℕ → List (Message J) → Type 0
  At start n ms = Extends start ms × (length ms ≡ n)

  add-At :
      (start : List (Message J)) (n : ℕ) (ms : List (Message J)) (m : Message J)
      → n < limit
      → At start n ms
      → Ensures Q (At start (n + 1)) (agent_add_message cj limit ms m)
  add-At start n ms m h (ext, len) =
      rw (add-eq ms m (omega arith))
        (Extends-add start ms m ext, omega (arith, length-append ms (m ∷ [])))

  run_calls-At :
      (start : List (Message J)) (calls : J) (n t len total : ℕ) (s : Turn J W)
      → ((i : ℕ) → i < t + n → Runs cj tools agent Q (cj.array_item calls i))
      → len + n ≡ total
      → total ≤ limit
      → At start len s.messages
      → Ensures Q (λ s'. At start total s'.messages) (run_calls cj tools limit calls n t s)
  unfolding run_calls
  run_calls-At start calls zero t len total s ok e room h = (h.0, omega (arith, h.1))
  run_calls-At start calls (suc n) t len total s ok e room h =
      Ensures-bind Q (λ _. Unit {0}) _ (dispatch cj tools (cj.array_item calls t) s.world) _
        (ok t (omega arith) s.world)
        λ answer _.
          Ensures-bind Q (At start (len + 1)) _ (agent_add_message cj limit s.messages _) _
            (add-At start len s.messages _ (omega arith) h)
            λ ms k.
              run_calls-At start calls n (t + 1) (len + 1) total _ (λ i lt. ok i (omega arith))
                (omega arith) room k

  module _ (base : List (Message J)) (user : Message J) where
    abbrev start : List (Message J)
    start = base ++ user ∷ []

    -- The turn left nothing, or it left the user's message, what came in between, and the reply as
    -- the last message.
    abbrev pub Settled : Option Bytes × Turn J W → Type 0
    Settled (reply, s) =
        (s.messages ≡ base)
        ⊎ ((between : List (Message J)) × (s.messages
              ≡ start ++ (between ++ text_message (codes "assistant") reply ∷ [])))

    back-Settled : (ms : List (Message J)) → Extends start ms → roll_back (length base) ms ≡ base
    back-Settled ms (more, e) =
        roll_back-eq-take (length base) ms
        ∙ ap (take (length base)) (e ∙ append_assoc base (user ∷ []) more)
        ∙ take-append_self base (user ∷ more)

    respond-Settled :
        (k n len : ℕ) (next : Turn J W → Outcome (Option Bytes × Turn J W)) (resp : LlmResponse J)
        (s : Turn J W) (error : Option Bytes) (calls : Option J)
        → len + (k + 1) + n ≤ limit
        → At start len s.messages
        → ((len' : ℕ) (s' : Turn J W)
            → len' + n ≤ limit
            → At start len' s'.messages
            → Ensures Q Settled (next s'))
        → ((c : J) → calls ≡ some c → cj.array_size c ≤ k)
        → ((c : J)
            → calls ≡ some c
            → (i : ℕ) → i < cj.array_size c
            → Runs cj tools agent Q (cj.array_item c i))
        → Ensures Q Settled (respond cj tools limit (length base) next resp s error calls)
    unfolding respond
    respond-Settled k n len next resp s (some e) calls room h go few ok =
        inl (back-Settled s.messages h.0)
    respond-Settled k n len next resp s none (some c) room h go few ok =
        let small = few c refl in
        Ensures-bind Q (At start (len + 1)) _ (agent_add_message cj limit s.messages _) _
          (add-At start len s.messages _ (omega arith) h)
          λ ms hm.
            Ensures-bind Q (λ s'. At start (len + 1 + cj.array_size c) s'.messages) _
              (run_calls cj tools limit c (cj.array_size c) 0 _) _
              (run_calls-At start c (cj.array_size c) 0 (len + 1) (len + 1 + cj.array_size c) _
                (λ i lt. ok c refl i (omega arith)) (omega arith) (omega (arith, small)) hm)
              λ s' hs. go (len + 1 + cj.array_size c) s' (omega (arith, small)) hs
    respond-Settled k n len next resp s none none room h go few ok =
        let ((more, e), size) = h in
        rw
          (add-eq s.messages (text_message (codes "assistant") (strip_think_tags resp.content))
            (omega arith))
          (inr (more, rw e (append_assoc start more _)))

    pending_calls-some :
        (resp : LlmResponse J) (c : J)
        → pending_calls cj tools resp ≡ some c
        → resp.tool_calls ≡ some c
    pending_calls-some resp c h = ground arith

    chat_loop-Settled :
        (k n iter len : ℕ) (s : Turn J W)
        → ProviderRuns cj tools agent Q
        → FewCalls k
        → len + n * (k + 1) ≤ limit
        → At start len s.messages
        → Ensures Q Settled (chat_loop cj tools agent (length base) n iter s)
    unfolding chat_loop
    chat_loop-Settled k zero iter len s runs few room h = inl (back-Settled s.messages h.0)
    chat_loop-Settled k (suc n) iter len s runs few room h =
        let (resp, w) = ask cj tools agent iter s in
        let calls = pending_calls cj tools resp in
        respond-Settled k (n * (k + 1)) len (chat_loop cj tools agent (length base) n (iter + 1))
          resp (record s { world = w }) resp.error calls (omega arith) h
          (λ len' s' room' h'. chat_loop-Settled k n (iter + 1) len' s' runs few room' h')
          (λ c e. few iter s c (pending_calls-some resp c e))
          (λ c e. runs iter s c (pending_calls-some resp c e))

  with_system-full :
      (limit : ℕ) (prompt : Bytes) (ms : List (Message J))
      → 1 ≤ length ms
      → with_system cj tools limit prompt ms ≡ done ms
  unfolding with_system
  with_system-full limit prompt [] h = absurd (omega arith)
  with_system-full limit prompt (m ∷ ms) h = refl

  -- Where the history has room for all that the turn may add, the turn is atomic. A history that
  -- already has its system message is afterwards as it was, or has grown by the user's message,
  -- the messages of the tool iterations, and the reply that is returned.
  pub agent_chat_atomic :
      (k c : ℕ) (cs : Bytes) (w : W)
      → 1 ≤ length agent.messages
      → ProviderRuns cj tools agent Q
      → FewCalls k
      → length agent.messages + 1 + pos_part agent.max_iterations * (k + 1) ≤ limit
      → Ensures Q
          (λ out.
            ((out.1).messages ≡ agent.messages)
            ⊎ ((between : List (Message J)) × ((out.1).messages
                  ≡ (agent.messages ++ user_message (c ∷ cs) ∷ [])
                    ++ (between ++ text_message (codes "assistant") out.0 ∷ []))))
          (agent_chat cj tools agent (some (c ∷ cs)) w)
  unfolding agent_chat
  agent_chat_atomic k c cs w full runs few room =
      let user = user_message (c ∷ cs) in
      rw (with_system-full limit (build_system_prompt agent.system_parts) agent.messages full) (
        rw (add-eq agent.messages user (omega arith)) (
          Ensures-bind Q (Settled agent.messages user) _
            (chat_loop cj tools agent (length agent.messages) (pos_part agent.max_iterations) 0 _) _
            (chat_loop-Settled agent.messages user k (pos_part agent.max_iterations) 0
              (length agent.messages + 1) _ runs few room
              (([], sym (append-nil _)), omega (arith, length-append agent.messages (user ∷ []))))
            (λ out settled. settled)))

module _ {J W : Type 0} (cj : Cjson J) (tools : Registry J W) (agent : Agent J W) where
  -- Every request of the first iteration ends in this error.
  abbrev pub IsDown : Bytes → Type 0
  IsDown error = (s : Turn J W) → (ask cj tools agent 0 s).0.error ≡ some error

  add_at_limit :
      (limit : ℕ) (ms : List (Message J)) (m : Message J)
      → limit ≤ max_messages
      → length ms ≡ limit
      → 2 ≤ limit
      → agent_add_message cj limit ms m ≡ done (agent_compact_history cj limit ms ++ m ∷ [])
  unfolding agent_add_message
  add_at_limit limit ms m le e two = rw (le→leb limit (length ms) (omega arith)) (
      rw
        (lt→ltb (length (agent_compact_history cj limit ms)) max_messages
          (omega (arith, compact-length cj limit ms (omega arith))))
        refl)

  failed_loop :
      (pre n : ℕ) (s : Turn J W) (error : Bytes)
      → IsDown error
      → length s.messages ≤ pre
      → chat_loop cj tools agent pre (suc n) 0 s
        ≡ done (some error, record s { world = (ask cj tools agent 0 s).1 })
  unfolding chat_loop respond
  failed_loop pre n s error fails short = rw (fails s) (
      ap (λ ms. done (some error, record { messages = ms; world = (ask cj tools agent 0 s).1 }))
        (roll_back-eq-take pre s.messages ∙ take-eq_of_le pre s.messages short))

  -- At the limit the roll-back does not undo the turn. The compaction that makes room for the
  -- user's message leaves no more messages than the turn began with, so when the provider then
  -- fails nothing is popped: the older messages are lost, and the unanswered user message stays
  -- as the last one.
  pub agent_chat-fails_at_limit :
      (c n : ℕ) (cs error : Bytes) (w : W)
      → length agent.messages ≡ limit_of agent.history_limit
      → 2 ≤ length agent.messages
      → agent.max_iterations ≡ pos (suc n)
      → IsDown error
      → (out : Option Bytes × Agent J W × W) × (agent_chat cj tools agent (some (c ∷ cs)) w
          ≡ done out)
        × (out.0 ≡ some error)
        × ((out.1).messages
            ≡ agent_compact_history cj (limit_of agent.history_limit) agent.messages
              ++ user_message (c ∷ cs) ∷ [])
  unfolding agent_chat
  agent_chat-fails_at_limit c n cs error w e two rounds fails =
      let limit = limit_of agent.history_limit in
      let user = user_message (c ∷ cs) in
      let ms = agent_compact_history cj limit agent.messages ++ user ∷ [] in
      let s : Turn J W = record { messages = ms; world = w } in
      let short : length ms ≤ length agent.messages = omega (
        arith,
        length-append (agent_compact_history cj limit agent.messages) (user ∷ []),
        compact-length cj limit agent.messages two,
      ) in
      (
        (some error, record agent { messages = ms }, (ask cj tools agent 0 s).1),
        rw
            (with_system-full cj tools agent (λ _. Unit) limit
              (build_system_prompt agent.system_parts) agent.messages (omega arith))
            (rw
              (add_at_limit limit agent.messages user (limit_of_bounds agent.history_limit).1 e
                (omega arith))
              (rw rounds (rw (failed_loop (length agent.messages) n s error fails short) refl))),
        refl,
        refl,
      )
