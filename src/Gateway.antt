-- ===== src/Gateway.antt =====
-- gateway/gateway.c: one connection, from the bytes that it sends to the response. Sockets are the
-- pieces that read() yields; popen(), the environment and the page on disk are a record of the host.
pub mod Request
pub mod Route
pub mod Slots
use vajra_ai.Prelude.{
  ℕ, zero, suc, ◌+◌, ◌-◌, ◌*◌, Bool, true, false, not, ◌&&◌, ◌||◌, Option, none, some, List, [],
  ◌∷◌, ◌++◌, ltb, leb, ◌==◌, if◌then◌else◌, length, take,
}
use vajra_ai.Prelude.Int.{ℤ, pos, negsuc}
use vajra_ai.CString.{Bytes, codes, equal, equal_nocase, strchr, strstr}
use vajra_ai.CString.Number.{decimal}
use vajra_ai.Memory.{Outcome, done, fault, null_pointer, ◌>>=◌}
use vajra_ai.Cjson.{Cjson, value?, string_arg}
use vajra_ai.Types.{Result}
use vajra_ai.Files.{fgets_lines}
use vajra_ai.ToolRegistry.{Registry}
use vajra_ai.Scheduler.{Scheduler, scheduler_task_json}
use vajra_ai.Agent.State.{Agent}
use vajra_ai.Agent.Chat.{agent_chat}

-- What is sent: the status, the type and the body.
pub record Response : Type 0 where
  pub status : ℕ
  pub content_type : Bytes
  pub body : Bytes

unfoldable pub reason_of : ℕ → Bytes
reason_of code =
    if code == 200
    then codes "OK"
    else if code == 400
    then codes "Bad Request"
    else if code == 404
    then codes "Not Found"
    else if code == 503
    then codes "Service Unavailable"
    else codes "Internal Server Error"

-- The bytes of send_response; the header is shorter than its buffer.
unfoldable pub send_response : Response → Bytes
unfolding reason_of
send_response r =
    codes "HTTP/1.1 "
    ++ (decimal r.status
        ++ (b' '
            ∷ (reason_of r.status
                ++ (codes "\r\nContent-Type: "
                    ++ (r.content_type
                        ++ (codes "\r\nContent-Length: "
                            ++ (decimal (length r.body)
                                ++ (codes "\r\nAccess-Control-Allow-Origin: *\r\n"
                                    ++ (codes "Connection: close\r\n\r\n" ++ r.body)))))))))

abbrev pub json_response : ℕ → Bytes → Response
json_response code body = record {
  status = code;
  content_type = codes "application/json";
  body = body;
}

abbrev pub error_response : ℕ → Bytes → Response
error_response code text = json_response code (codes "{\"error\":\"" ++ (text ++ codes "\"}"))

abbrev html_type : Bytes
html_type = codes "text/html; charset=utf-8"

abbrev pub fallback_html : Bytes
fallback_html =
    codes "<!DOCTYPE html><html><head><meta charset='UTF-8'>"
    ++ (codes "<title>Aham</title>"
        ++ (codes "<style>body{font-family:monospace;background:#05050f;color:#a855f7;"
            ++ (codes
                  "display:flex;flex-direction:column;align-items:center;justify-content:center;"
                ++ (codes "height:100vh;gap:12px}</style></head><body>"
                    ++ (codes "<h2>&#9889; Aham</h2>"
                        ++ (codes
                              "<p>chat.html not found. Place it in the assets/ directory and restart.</p>"
                            ++ codes "</body></html>"))))))

-- The outside: a file's content if it opens, the environment, and the output of a command if popen()
-- starts it.
pub record Host : Type 0 where
  pub open_file : Bytes → Option Bytes
  pub getenv : Bytes → Option Bytes
  pub popen : Bytes → Option Bytes

-- `struct gateway`, as far as a connection reads it, with the world of the agent.
pub record Gateway (J W : Type 0) : Type 0 where
  pub agent : Option (Agent J W)
  pub scheduler : Option Scheduler
  pub html_path : Option Bytes
  pub port : ℤ
  pub debug : Bool
  pub world : W

-- A size of 0 or above 2 MB is refused.
unfoldable pub sized_html : Option Bytes → Option Bytes
sized_html none = none
sized_html (some content) =
    if length content == 0 || ltb (2 * 1024 * 1024) (length content) then none else some content

unfoldable pub load_html : Host → Option Bytes → Option Bytes
unfolding sized_html
load_html host (some (c ∷ cs)) = sized_html (host.open_file (c ∷ cs))
load_html host _ = none

abbrev or_fallback : Option Bytes → Bytes
or_fallback none = fallback_html
or_fallback (some html) = html

abbrev is_true_text : Option Bytes → Bool
is_true_text none = false
is_true_text (some env) = equal env (codes "1") || equal_nocase env (codes "true")

abbrev positive_or : ℤ → ℤ → ℤ
positive_or (pos (suc n)) default = pos (suc n)
positive_or _ default = default

-- The tmux command, and whether a line of its output ends the list.
unfoldable pub tmux_command : Option Bytes → Bytes
tmux_command (some (c ∷ cs)) = take 255 (
    codes "tmux -S '"
    ++ (c ∷ cs
        ++ (codes "' ls -F "
            ++ codes "'#{session_name}\t#{session_windows}\t#{session_created}' 2>&1")))
tmux_command _ =
    take 255 (codes "tmux ls -F '#{session_name}\t#{session_windows}\t#{session_created}' 2>&1")

abbrev occurs : Option (Bytes × Bytes) → Bool
occurs none = false
occurs (some _) = true

unfoldable pub is_tmux_error : Bytes → Bool
unfolding strstr
is_tmux_error line =
    occurs (strstr line (codes "no server running"))
    || occurs (strstr line (codes "no sessions"))
    || occurs (strstr line (codes "error connecting"))

-- A line without the line feed at its end.
unfoldable pub without_newline : Bytes → Bytes
without_newline [] = []
without_newline (c ∷ []) = if c == b'\n' then [] else c ∷ []
without_newline (c ∷ d ∷ ds) = c ∷ without_newline (d ∷ ds)

-- Up to the tab and behind it; a field that is missing is empty.
abbrev at_tab : Bytes → Option (Bytes × Bytes) → Bytes × Bytes
at_tab whole none = (whole, [])
at_tab whole (some (field, rest)) = (field, rest)

module _ {J : Type 0} (cj : Cjson J) where
  unfoldable pub tmux_item : Bytes → J
  unfolding strchr
  tmux_item line =
      let (name, behind) = at_tab line (strchr line 0x09) in
      let (windows, created) = at_tab behind (strchr behind 0x09) in
      let with_name = cj.add_string cj.create_object (codes "name") name in
      let with_windows = cj.add_string with_name (codes "windows") windows in
      cj.add_string with_windows (codes "created") created

  unfoldable pub tmux_items : List Bytes → J → J
  unfolding is_tmux_error tmux_item without_newline
  tmux_items [] arr = arr
  tmux_items (line ∷ lines) arr =
      let more = tmux_items lines (cj.add_to_array arr (tmux_item (without_newline line))) in
      if is_tmux_error line then arr else more

  abbrev tmux_array : Option Bytes → J
  tmux_array none = cj.create_array
  tmux_array (some output) = tmux_items (fgets_lines 511 output) cj.create_array

  -- strlen(NULL) where printing failed.
  unfoldable pub send_json_obj : ℕ → J → Outcome Response
  send_json_obj code obj = elim (cj.print obj) [
    | none ↦ fault null_pointer
    | some json ↦ done (json_response code json)
  ]

  abbrev or_empty_list : Option Bytes → Bytes
  or_empty_list none = codes "[]"
  or_empty_list (some json) = json

  unfoldable pub handle_tmux : Host → Response
  unfolding tmux_items tmux_command fgets_lines
  handle_tmux host = json_response 200 (
      or_empty_list
        (cj.print (tmux_array (host.popen (tmux_command (host.getenv (codes "TMUX_SOCKET")))))))

  unfoldable pub handle_tasks : Option Scheduler → Response
  unfolding scheduler_task_json
  handle_tasks scheduler = json_response 200 (or_empty_list (scheduler_task_json cj scheduler))

unfoldable pub handle_root : Host → Option Bytes → Response
unfolding load_html
handle_root host html_path = record {
  status = 200;
  content_type = html_type;
  body = or_fallback (load_html host html_path);
}

abbrev version_string : Bytes
version_string = codes "1.0.0"

abbrev or_empty_text : Option Bytes → Bytes
or_empty_text none = []
or_empty_text (some text) = text

module _ {J W : Type 0} (cj : Cjson J) (tools : Registry J W) where
  abbrev model_of : Option (Agent J W) → Bytes
  model_of none = codes "unknown"
  model_of (some agent) = agent.provider.model

  abbrev is_there : Option (Agent J W) → Bool
  is_there none = false
  is_there (some agent) = true

  unfoldable pub handle_status : Gateway J W → Outcome Response
  unfolding send_json_obj
  handle_status gw =
      let with_status = cj.add_string cj.create_object (codes "status") (codes "ok") in
      let with_version = cj.add_string with_status (codes "version") version_string in
      let with_model = cj.add_string with_version (codes "model") (model_of gw.agent) in
      let with_ready = cj.add_bool with_model (codes "agent_ready") (is_there gw.agent) in
      send_json_obj cj 200 (cj.add_bool with_ready (codes "debug") gw.debug)

  -- The answer to a chat once the agent has replied.
  unfoldable pub reply_chat :
      Gateway J W → Option Bytes × Agent J W × W → Outcome (Response × Gateway J W)
  unfolding send_json_obj
  reply_chat gw (response, agent, w) =
      let obj = cj.add_string cj.create_object (codes "response") (or_empty_text response) in
      send_json_obj cj 200 (cj.add_string obj (codes "model") agent.provider.model) >>= λ r.
      done (r, record gw { agent = some agent; world = w })

  unfoldable pub chat_message :
      Gateway J W → Agent J W → Option Bytes → Outcome (Response × Gateway J W)
  unfolding agent_chat reply_chat
  chat_message gw agent (some (c ∷ cs)) =
      agent_chat cj tools agent (some (c ∷ cs)) gw.world >>= reply_chat gw
  chat_message gw agent _ = done (error_response 400 (codes "'message' field required"), gw)

  unfoldable pub chat_parsed : Gateway J W → Agent J W → Option J → Outcome (Response × Gateway J W)
  unfolding chat_message string_arg
  chat_parsed gw agent none = done (error_response 400 (codes "Invalid JSON"), gw)
  chat_parsed gw agent (some req) = chat_message gw agent (string_arg cj req (codes "message"))

  unfoldable pub chat_body :
      Gateway J W → Agent J W → Option Bytes → Outcome (Response × Gateway J W)
  unfolding chat_parsed
  chat_body gw agent (some (c ∷ cs)) = chat_parsed gw agent (cj.parse (c ∷ cs))
  chat_body gw agent _ = done (error_response 400 (codes "Empty request body"), gw)

  -- The agent, and the body of the request.
  unfoldable pub handle_chat :
      Gateway J W → Option (Agent J W) → Option Bytes → Outcome (Response × Gateway J W)
  unfolding chat_body
  handle_chat gw none body = done (error_response 503 (codes "Agent not initialised"), gw)
  handle_chat gw (some agent) body = chat_body gw agent body

unfoldable pub gateway_create :
    {J W : Type 0}
    → Host
    → Option (Agent J W)
    → Option Scheduler
    → ℤ
    → Option Bytes
    → Bool
    → W
    → Gateway J W
unfolding equal equal_nocase
gateway_create host agent scheduler port html_path debug w = record {
  agent = agent;
  scheduler = scheduler;
  html_path = html_path;
  port = positive_or port (pos 8080);
  debug = debug || is_true_text (host.getenv (codes "DEBUG"));
  world = w;
}
