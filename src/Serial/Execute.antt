-- ===== src/Serial/Execute.antt =====
-- tools/serial/serial_tool.c, `serial_execute`: the arguments, the session, and the answer.
use vajra_ai.Prelude.{
  ℕ, zero, suc, ◌+◌, Bool, true, Option, none, some, List, [], ◌∷◌, ◌++◌, ◌==◌, if◌then◌else◌,
  length, take, min,
}
use vajra_ai.Prelude.Int.{ℤ}
use vajra_ai.CString.{Bytes, codes}
use vajra_ai.Cjson.{Cjson, string_arg}
use vajra_ai.ToolRegistry.{Tool, Registry, tool_register}
use vajra_ai.Serial.{Device, default_device, device_lookup, Port, serial_open}
use vajra_ai.Serial.Read.{Event}
use vajra_ai.Serial.Login.{Login, skipped, already_authenticated, logged_in, failed, serial_login}
use vajra_ai.Serial.Command.{Status, CmdResult, run_one_command}

-- SERIAL_MAX_COMMANDS
abbrev pub max_commands : ℕ
max_commands = 32

-- The outside of one call: device.conf with the path that was set, how a port opens, what comes during
-- the login, and for each command whether it can be written and what comes; (int)elapsed_ms. Where the
-- list of replies ends, nothing comes.
pub record Session : Type 0 where
  pub conf_path : Bytes
  pub conf : Option Bytes
  pub delay_of : Bytes → ℤ
  pub port : Bytes → Port
  pub at_login : List Event
  pub replies : List (Bool × List Event)
  pub elapsed_ms : ℤ

abbrev status_text : Status → Bytes
status_text Status.ok = codes "ok"
status_text Status.timeout = codes "timeout"
status_text Status.error = codes "error"

-- One command after the other.
unfoldable pub run_commands : Bytes → List Bytes → List (Bool × List Event) → List CmdResult
unfolding run_one_command
run_commands prompt [] replies = []
run_commands prompt (c ∷ cs) [] = run_one_command c prompt true [] ∷ run_commands prompt cs []
run_commands prompt (c ∷ cs) ((writes, events) ∷ replies) =
    run_one_command c prompt writes events ∷ run_commands prompt cs replies

abbrev with_detail : Bytes → Bytes → Bytes → Bytes
with_detail [] before command = before ++ command
with_detail (c ∷ cs) before command = (c ∷ cs) ++ (codes "; " ++ (before ++ command))

abbrev after_timeout : Status × Bytes → Bytes → Status × Bytes
after_timeout (Status.error, detail) command = (Status.error, detail)
after_timeout (_, detail) command = (Status.timeout, with_detail detail (codes "timeout: ") command)

abbrev after_result : Status × Bytes → CmdResult → Status → Status × Bytes
after_result (overall, detail) r Status.ok = (overall, detail)
after_result (overall, detail) r Status.error =
    (Status.error, with_detail detail (codes "error: ") r.command)
after_result s r Status.timeout = after_timeout s r.command

-- The overall status and the text of the errors.
unfoldable pub overall_from : Status × Bytes → List CmdResult → Status × Bytes
overall_from s [] = s
overall_from s (r ∷ rs) = overall_from (after_result s r r.status) rs

abbrev login_text : Login → Bytes
login_text skipped = codes "skipped"
login_text already_authenticated = codes "already_authenticated"
login_text logged_in = codes "ok"
login_text (failed _) = codes "failed"

abbrev or_port : Bytes → Option Bytes → Bytes
or_port old (some (c ∷ cs)) = take 255 (c ∷ cs)
or_port old _ = old

abbrev or_text : Bytes → Option Bytes → Bytes
or_text old none = old
or_text old (some s) = take 255 s

abbrev or_text_of : Option Bytes → Bytes
or_text_of none = []
or_text_of (some s) = s

module _ {J : Type 0} (cj : Cjson J) where
  unfoldable pub json_err : Bytes → Option Bytes
  json_err msg = cj.print (
      cj.add_string (cj.add_string cj.create_object (codes "status") (codes "error"))
        (codes "error") msg)

  abbrev add_unless_empty : J → Bytes → Bytes → J
  add_unless_empty root key [] = root
  add_unless_empty root key (c ∷ cs) = cj.add_string root key (c ∷ cs)

  abbrev result_item : CmdResult → J
  result_item r =
      cj.add_string
        (cj.add_string (cj.add_string cj.create_object (codes "command") r.command) (codes "output")
          r.output)
        (codes "status") (status_text r.status)

  unfoldable pub command_items : List CmdResult → J → J
  command_items [] arr = arr
  command_items (r ∷ rs) arr = command_items rs (cj.add_to_array arr (cj.create_string r.command))

  unfoldable pub result_items : List CmdResult → J → J
  result_items [] arr = arr
  result_items (r ∷ rs) arr = result_items rs (cj.add_to_array arr (result_item r))

  -- A device without a name is one that the arguments describe.
  unfoldable pub build_result :
      Bytes → Bytes → Device → Bytes → List CmdResult → Bytes → ℤ → Option Bytes
  unfolding command_items result_items
  build_result status device_name dev login_status results error_msg elapsed_ms =
      let root = cj.add_string cj.create_object (codes "status") status in
      let named = add_unless_empty root (codes "device") device_name in
      let ported = cj.add_string named (codes "port") dev.port in
      let rated = cj.add_int ported (codes "baud") dev.baud in
      let logged = cj.add_string rated (codes "login_status") login_status in
      let commands =
        cj.add_item logged (codes "commands") (command_items results cj.create_array) in
      let whole = cj.add_item commands (codes "results") (result_items results cj.create_array) in
      cj.print (
        cj.add_int (add_unless_empty whole (codes "error") error_msg) (codes "elapsed_ms")
          elapsed_ms)

  abbrev or_int : ℤ → Option J → ℤ
  or_int old none = old
  or_int old (some v) = if cj.is_number v then cj.int_value v else old

  abbrev or_bool : Bool → Option J → Bool
  or_bool old none = old
  or_bool old (some v) = if cj.is_bool v then cj.is_true v else old

  -- The arguments go before the profile.
  unfoldable pub with_args : J → Device → Device
  unfolding string_arg
  with_args args dev = record dev {
    port = or_port dev.port (string_arg cj args (codes "port"));
    baud = or_int dev.baud (cj.object_item args (codes "baud"));
    username = or_text dev.username (string_arg cj args (codes "username"));
    password = or_text dev.password (string_arg cj args (codes "password"));
    login_prompt = or_text dev.login_prompt (string_arg cj args (codes "login_prompt"));
    prompt = or_text dev.prompt (string_arg cj args (codes "prompt"));
    no_login = or_bool dev.no_login (cj.object_item args (codes "no_login"));
    timeout_sec = or_int dev.timeout_sec (cj.object_item args (codes "timeout"));
    login_timeout_sec = or_int dev.login_timeout_sec (cj.object_item args (codes "login_timeout"));
    inter_cmd_delay_ms =
        or_int dev.inter_cmd_delay_ms (cj.object_item args (codes "inter_cmd_delay_ms"));
  }

  -- An entry that is no string is an empty command.
  abbrev command_of : Option J → Bytes
  command_of none = []
  command_of (some v) = if cj.is_string v then or_text_of (cj.string_value v) else []

  unfoldable pub commands_from : J → ℕ → ℕ → List Bytes
  commands_from arr zero i = []
  commands_from arr (suc n) i = command_of (cj.array_item arr i) ∷ commands_from arr n (i + 1)

  unfoldable pub collect_commands : Option J → List Bytes
  unfolding commands_from
  collect_commands none = []
  collect_commands (some arr) =
      if cj.is_array arr then commands_from arr (min (cj.array_size arr) max_commands) 0 else []

  abbrev ran : Session → Bytes → Device → List CmdResult → Login → Status × Bytes → Option Bytes
  ran s device_name dev results login (overall, detail) =
      build_result (status_text overall) device_name dev (login_text login) results detail
        s.elapsed_ms

  abbrev after_login : Session → Bytes → Device → List Bytes → Login → Option Bytes
  after_login s device_name dev commands (failed text) =
      build_result (codes "login_failed") device_name dev (codes "failed") [] text s.elapsed_ms
  after_login s device_name dev commands login =
      let results = run_commands dev.prompt commands s.replies in
      ran s device_name dev results login (overall_from (Status.ok, []) results)

  abbrev after_open : Session → Bytes → Device → List Bytes → Option Bytes → Option Bytes
  after_open s device_name dev commands (some text) = json_err text
  after_open s device_name dev commands none =
      after_login s device_name dev commands (serial_login dev s.at_login).0

  abbrev with_commands : Session → Bytes → Device → List Bytes → Option Bytes
  with_commands s device_name dev [] =
      json_err (codes "'commands' array is required and must be non-empty")
  with_commands s device_name dev (c ∷ cs) =
      after_open s device_name dev (c ∷ cs) (serial_open (s.port dev.port) dev.port dev.baud)

  -- The checks and the session of a device, named or not.
  unfoldable pub run_session : Session → J → Bytes → Device → Option Bytes
  unfolding json_err collect_commands serial_open serial_login run_commands overall_from
      build_result
  run_session s args device_name dev =
      if length dev.port == 0
      then json_err (codes "'port' is required (or specify a 'device' name)")
      else if length dev.prompt == 0
      then json_err (codes "'prompt' is required")
      else with_commands s device_name dev
          (collect_commands (cj.object_item args (codes "commands")))

  abbrev with_profile : Session → J → Bytes → Option Device → Option Bytes
  with_profile s args name none =
      json_err (take 511 (codes "Device '" ++ (name ++ (codes "' not found in " ++ s.conf_path))))
  with_profile s args name (some dev) = run_session s args name (with_args args dev)

  abbrev resolve : Session → J → Option Bytes → Option Bytes
  resolve s args (some (c ∷ cs)) =
      with_profile s args (c ∷ cs) (device_lookup s.delay_of s.conf (c ∷ cs))
  resolve s args _ = run_session s args [] (with_args args (default_device []))

  unfoldable pub serial_execute : Session → J → Option Bytes
  unfolding json_err run_session with_args device_lookup default_device string_arg
  serial_execute s args = resolve s args (string_arg cj args (codes "device"))

  -- A call takes the next session; the list ends with the process.
  unfoldable pub next_session : J → List Session → Option Bytes × List Session
  unfolding serial_execute
  next_session args [] = (none, [])
  next_session args (s ∷ ss) = (serial_execute s args, ss)

  -- The tool, of which each call has its session.
  serial_tool : Tool J (List Session)
  serial_tool = record {
    name = some (codes "serial_exec");
    description = some (
        codes "Execute commands on a serial-connected device (UART/TTY). Use 'device'"
        ++ (codes " to reference a named profile from device.conf (preferred "
            ++ ((0xe2 ∷ 0x80 ∷ 0x94 ∷ [])
                ++ (codes " no need to specify port/baud/credentials manually). Pass 'commands' a"
                    ++ (codes
                          "s an array of shell commands to run in sequence. Returns structured JS"
                        ++ (codes "ON with per-command output and status."))))));
    parameters_schema = some (
        codes "{\"type\":\"object\",\"properties\":{\"device\":{\"type\":\"string\","
        ++ (codes "\"description\":\"Named device from device.conf (e.g. 'm1700_0'). Reso"
            ++ (codes "lves port, baud, credentials automatically.\"},\"commands\":{\"type\":"
                ++ (codes "\"array\",\"items\":{\"type\":\"string\"},\"description\":\"Shell comm"
                    ++ (codes
                          "ands to run on the device in order.\"},\"port\":{\"type\":\"string\","
                        ++ (codes
                              "\"description\":\"Serial device path (e.g. /dev/ttyUSB0). Required if "
                            ++ (codes
                                  "'device' is not specified.\"},\"baud\":{\"type\":\"integer\",\"descrip"
                                ++ (codes
                                      "tion\":\"Baud rate (default 115200).\"},\"no_login\":{\"type\":\"boole"
                                    ++ (codes "an\",\"description\":\"Skip login "
                                        ++ ((0xe2 ∷ 0x80 ∷ 0x94 ∷ [])
                                            ++ (codes
                                                  " shell is already active on connect.\"},\"username\":{\"type\":\"strin"
                                                ++ (codes
                                                      "g\",\"description\":\"Login username (omit to skip login).\"},\"passwo"
                                                    ++ (codes
                                                          "rd\":{\"type\":\"string\",\"description\":\"Login password.\"},\"login"
                                                        ++ (codes
                                                            "_prompt\":{\"type\":\"string\",\"description\":\"Custom string the dev"
                                                            ++ (codes
                                                            "ice prints before username (e.g. 'm1700 login'). Auto-detected if omit"
                                                            ++ (codes
                                                            "ted.\"},\"prompt\":{\"type\":\"string\",\"description\":\"Shell prompt"
                                                            ++ (codes
                                                            " string that marks end of command output (e.g. 'root@m1700:~#'). Defau"
                                                            ++ (codes
                                                            "lt: '#'.\"},\"timeout\":{\"type\":\"integer\",\"description\":\"Per-co"
                                                            ++ (codes
                                                            "mmand timeout in seconds (default 10).\"},\"login_timeout\":{\"type\":"
                                                            ++ (codes
                                                            "\"integer\",\"description\":\"Max seconds for the full login sequence "
                                                            ++ (codes
                                                            "(default 30).\"},\"inter_cmd_delay_ms\":{\"type\":\"integer\",\"descri"
                                                            ++ (codes
                                                            "ption\":\"Milliseconds to wait between commands (default 300).\"}},\"r"
                                                            ++ (codes
                                                            "equired\":[\"commands\"]}")))))))))))))))))))))));
    execute = some (λ args w. next_session args w);
  }

  unfoldable pub serial_tool_register : Registry J (List Session) → Registry J (List Session)
  unfolding tool_register serial_tool
  serial_tool_register tools = (tool_register tools serial_tool).1
