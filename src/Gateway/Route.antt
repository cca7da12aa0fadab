-- ===== src/Gateway/Route.antt =====
-- gateway/gateway.c: the routes, and what a request may change.
use vajra_ai.Prelude.{
  ◌≡◌, ◌≢◌, refl, inl, inr, ℕ, true, ◌||◌, Option, none, some, List, [], ◌∷◌, if◌then◌else◌,
  Bool-cases, Option-cases, if_each,
}
use vajra_ai.CString.{Bytes, codes, equal}
use vajra_ai.Memory.{Outcome, done, fault, Fault, null_pointer, ◌>>=◌, Ensures}
use vajra_ai.Cjson.{Cjson, string_arg}
use vajra_ai.ToolRegistry.{Registry}
use vajra_ai.Agent.State.{Agent}
use vajra_ai.Agent.Chat.{agent_chat}
use vajra_ai.Gateway.{
  Response, Host, Gateway, json_response, error_response, handle_root, handle_status, handle_tasks,
  handle_tmux, handle_chat, chat_body, chat_parsed, chat_message, reply_chat, send_json_obj,
}
use vajra_ai.Gateway.Request.{request_body, request_line, read_request}

module _ {J W : Type 0} (cj : Cjson J) (tools : Registry J W) where
  -- A response that leaves the gateway as it is.
  abbrev answer : Gateway J W → Outcome Response → Outcome (Response × Gateway J W)
  answer gw response = response >>= λ r. done (r, gw)

  unfoldable pub route_chat : Gateway J W → Bytes → Bytes → Outcome (Response × Gateway J W)
  unfolding handle_chat request_body equal
  route_chat gw method raw =
      if equal method (codes "POST")
      then handle_chat cj tools gw gw.agent (request_body raw)
      else if equal method (codes "OPTIONS")
      then done (json_response 200 (codes "{}"), gw)
      else done (error_response 400 (codes "POST required"), gw)

  abbrev no_content : Response
  no_content = record { status = 204; content_type = codes "image/x-icon"; body = [] }

  -- The routes that only read.
  unfoldable pub route_other : Host → Gateway J W → Bytes → Outcome Response
  unfolding handle_root handle_status handle_tasks handle_tmux equal
  route_other host gw path =
      if equal path (codes "/") || equal path (codes "/index.html")
      then done (handle_root host gw.html_path)
      else if equal path (codes "/api/status")
      then handle_status cj tools gw
      else if equal path (codes "/api/tasks")
      then done (handle_tasks cj gw.scheduler)
      else if equal path (codes "/api/tmux")
      then done (handle_tmux cj host)
      else if equal path (codes "/favicon.ico")
      then done no_content
      else done (error_response 404 (codes "Not found"))

  unfoldable pub route :
      Host → Gateway J W → Bytes → Bytes → Bytes → Outcome (Response × Gateway J W)
  unfolding route_chat route_other
  route host gw method path raw =
      if equal path (codes "/api/chat")
      then route_chat gw method raw
      else answer gw (route_other host gw path)

  -- A connection: nothing is sent where nothing was read.
  abbrev on_request : Host → Gateway J W → Option Bytes → Outcome (Option Response × Gateway J W)
  on_request host gw none = done (none, gw)
  on_request host gw (some raw) =
      let (method, path) = request_line raw in
      route host gw method path raw >>= λ r. done (some r.0, r.1)

  unfoldable pub gateway_conn_thread :
      Host → (ℕ → Bytes) → List Bytes → Gateway J W → Outcome (Option Response × Gateway J W)
  unfolding route request_line read_request
  gateway_conn_thread host behind pieces gw = on_request host gw (read_request behind pieces)

  -- A POST to /api/chat of a message that is not empty, for an agent that is there.
  pub record IsChat (gw : Gateway J W) (method path raw : Bytes) (agent : Agent J W)
      (message : Bytes) : Type 0 where
    pub body : Bytes
    pub req : J
    pub at_chat : equal path (codes "/api/chat") ≡ true
    pub is_post : equal method (codes "POST") ≡ true
    pub agent_is : gw.agent ≡ some agent
    pub body_is : request_body raw ≡ some body
    pub body_there : body ≢ []
    pub parses : cj.parse body ≡ some req
    pub message_is : string_arg cj req (codes "message") ≡ some message
    pub message_there : message ≢ []

  -- A request of no such kind.
  abbrev pub IsNoChat : Gateway J W → Bytes → Bytes → Bytes → Type 0
  IsNoChat gw method path raw =
      (agent : Agent J W) (message : Bytes) → ¬ IsChat gw method path raw agent message

  -- What an answered request has done to the gateway: nothing, if it is of no such kind, or else one
  -- turn of the agent with its message.
  pub data Touched (gw : Gateway J W) (method path raw : Bytes) : Gateway J W → Type 0 where
    untouched : IsNoChat gw method path raw → Touched gw method path raw gw
    chatted :
        {agent agent' : Agent J W} {message : Bytes} {response : Option Bytes} {w : W}
        → IsChat gw method path raw agent message
        → agent_chat cj tools agent (some message) gw.world ≡ done (response, agent', w)
        → Touched gw method path raw (record gw { agent = some agent'; world = w })

  -- Why a request may fault: the turn has, or printing an answer has failed.
  pub data Fails (gw : Gateway J W) (method path raw : Bytes) : Fault → Type 0 where
    in_turn :
        {agent : Agent J W} {message : Bytes} {e : Fault}
        → IsChat gw method path raw agent message
        → agent_chat cj tools agent (some message) gw.world ≡ fault e
        → Fails gw method path raw e
    unprinted : {obj : J} → cj.print obj ≡ none → Fails gw method path raw null_pointer

  module _ (gw : Gateway J W) (method path raw : Bytes) where
    abbrev Leaves : Outcome (Response × Gateway J W) → Type 0
    Leaves = Ensures (Fails gw method path raw) (λ out. Touched gw method path raw out.1)

    abbrev Sends : Outcome Response → Type 0
    Sends = Ensures (Fails gw method path raw) (λ r. Unit {0})

    Sends-printed : (code : ℕ) (obj : J) → Sends (send_json_obj cj code obj)
    unfolding send_json_obj
    Sends-printed code obj = elim (Option-cases (cj.print obj)) [
      | inl e ↦ rw (e, send_json_obj) (unprinted e)
      | inr (json, e) ↦ rw (e, send_json_obj) tt
    ]

    Leaves-answer :
        (r : Outcome Response) → IsNoChat gw method path raw → Sends r → Leaves (answer gw r)
    Leaves-answer (done r) other h = untouched other
    Leaves-answer (fault e) other h = h

    Leaves-sent :
        (gw' : Gateway J W) (r : Outcome Response)
        → Touched gw method path raw gw'
        → Sends r
        → Leaves (r >>= λ x. done (x, gw'))
    Leaves-sent gw' (done r) h k = h
    Leaves-sent gw' (fault e) h k = k

    module _ (at_chat : equal path (codes "/api/chat") ≡ true)
        (is_post : equal method (codes "POST") ≡ true) where
      Leaves-turn :
          {agent : Agent J W} {message : Bytes} (turn : Outcome (Option Bytes × Agent J W × W))
          → IsChat gw method path raw agent message
          → agent_chat cj tools agent (some message) gw.world ≡ turn
          → Leaves (turn >>= reply_chat cj tools gw)
      unfolding reply_chat
      Leaves-turn (fault e) is_chat t = in_turn is_chat t
      Leaves-turn (done (response, agent', w)) is_chat t =
          Leaves-sent _ (send_json_obj cj 200 _) (chatted is_chat t) (Sends-printed 200 _)

      Leaves-chat_message :
          (agent : Agent J W) (c : ℕ) (cs : Bytes) (req : J) (message : Option Bytes)
          → gw.agent ≡ some agent
          → request_body raw ≡ some (c ∷ cs)
          → cj.parse (c ∷ cs) ≡ some req
          → string_arg cj req (codes "message") ≡ message
          → Leaves (chat_message cj tools gw agent message)
      unfolding chat_message
      Leaves-chat_message agent c cs req none a b p m = untouched (λ g t k. cc)
      Leaves-chat_message agent c cs req (some []) a b p m = untouched (λ g t k. k.message_there cc)
      Leaves-chat_message agent c cs req (some (d ∷ ds)) a b p m =
          Leaves-turn (agent_chat cj tools agent (some (d ∷ ds)) gw.world)
            (record {
              body = c ∷ cs;
              req = req;
              at_chat = at_chat;
              is_post = is_post;
              agent_is = a;
              body_is = b;
              body_there = λ e. cc;
              parses = p;
              message_is = m;
              message_there = λ e. cc;
            })
            refl

      Leaves-chat_parsed :
          (agent : Agent J W) (c : ℕ) (cs : Bytes) (req : Option J)
          → gw.agent ≡ some agent
          → request_body raw ≡ some (c ∷ cs)
          → cj.parse (c ∷ cs) ≡ req
          → Leaves (chat_parsed cj tools gw agent req)
      unfolding chat_parsed
      Leaves-chat_parsed agent c cs none a b p = untouched (λ g t k. cc)
      Leaves-chat_parsed agent c cs (some req) a b p =
          Leaves-chat_message agent c cs req (string_arg cj req (codes "message")) a b p refl

      Leaves-chat_body :
          (agent : Agent J W) (body : Option Bytes)
          → gw.agent ≡ some agent
          → request_body raw ≡ body
          → Leaves (chat_body cj tools gw agent body)
      unfolding chat_body
      Leaves-chat_body agent none a b = untouched (λ g t k. cc)
      Leaves-chat_body agent (some []) a b = untouched (λ g t k. k.body_there cc)
      Leaves-chat_body agent (some (c ∷ cs)) a b =
          Leaves-chat_parsed agent c cs (cj.parse (c ∷ cs)) a b refl

      Leaves-handle_chat :
          (agent : Option (Agent J W))
          → gw.agent ≡ agent
          → Leaves (handle_chat cj tools gw agent (request_body raw))
      unfolding handle_chat
      Leaves-handle_chat none a = untouched (λ g t k. cc)
      Leaves-handle_chat (some agent) a = Leaves-chat_body agent (request_body raw) a refl

    Leaves-route_chat : equal path (codes "/api/chat") ≡ true → Leaves (route_chat gw method raw)
    unfolding route_chat
    Leaves-route_chat at_chat = elim (Bool-cases (equal method (codes "POST"))) [
      | inl post ↦ rw post (Leaves-handle_chat at_chat post gw.agent refl)
      | inr other ↦ elim (Bool-cases (equal method (codes "OPTIONS"))) [
        | inl options ↦ rw (other, options) (untouched (λ g t k. cc))
        | inr neither ↦ rw (other, neither) (untouched (λ g t k. cc))
      ]
    ]

    Sends-route_other : (host : Host) → Sends (route_other host gw path)
    unfolding route_other handle_status
    Sends-route_other host =
        if_each Sends (equal path (codes "/") || equal path (codes "/index.html")) (λ e. tt)
          (λ e.
            if_each Sends (equal path (codes "/api/status")) (λ e. Sends-printed 200 _)
              (λ e.
                if_each Sends (equal path (codes "/api/tasks")) (λ e. tt)
                  (λ e.
                    if_each Sends (equal path (codes "/api/tmux")) (λ e. tt)
                      (λ e.
                        if_each Sends (equal path (codes "/favicon.ico")) (λ e. tt) (λ e. tt)))))

    -- An answered POST to /api/chat, for an agent that is there and with a body that is a JSON value
    -- with a message that is not empty, leaves the agent and its world as one turn with that message
    -- does, and every other request that is answered leaves the gateway as it was. A request faults
    -- only where that turn faults or an answer cannot be printed.
    pub route-Touched :
        (host : Host)
        → Ensures
            (Fails gw method path raw)
            (λ out. Touched gw method path raw out.1)
            (route host gw method path raw)
    unfolding route
    route-Touched host = elim (Bool-cases (equal path (codes "/api/chat"))) [
      | inl chat ↦ rw chat (Leaves-route_chat chat)
      | inr other ↦
          rw other (Leaves-answer (route_other host gw path) (λ g t k. cc) (Sends-route_other host))
    ]
