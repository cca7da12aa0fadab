-- ===== src/SlashCommands.antt =====
-- ux/slash_commands.c: the commands that begin with a slash. The output buffer has room for `room`
-- bytes and its NUL. The tools are the registry of the process; popen() and the environment are those
-- of the gateway's host.
pub mod Bounds
use vajra_ai.Prelude.{
  ℕ, zero, suc, ◌+◌, ◌-◌, Bool, true, false, not, ◌&&◌, ◌||◌, Option, none, some, List, [], ◌∷◌,
  ◌++◌, ltb, leb, ◌==◌, if◌then◌else◌, length, take, drop,
}
use vajra_ai.CString.{Bytes, codes, equal, has_prefix, strstr}
use vajra_ai.CString.Number.{decimal}
use vajra_ai.Types.{Result, str_trim}
use vajra_ai.Files.{fgets_lines}
use vajra_ai.ToolRegistry.{Tool, Registry, tool_count}
use vajra_ai.Agent.State.{Agent, agent_new_conversation, agent_message_count}
use vajra_ai.Scheduler.{Scheduler}
use vajra_ai.Scheduler.Snapshot.{padded, scheduler_task_snapshot}
use vajra_ai.Skills
use vajra_ai.Skills.{Skill, Skills, skills_count, skills_reload}
use vajra_ai.Gateway.{Host}

-- A text printed into a buffer of its own, or behind what the buffer holds.
abbrev pub printed : ℕ → Bytes → Bytes
printed room text = take room text

unfoldable pub buf_append : ℕ → Bytes → Bytes → Bytes
buf_append room buf text =
    if leb room (length buf) then buf else buf ++ take (room - length buf) text

-- `n` horizontal bars, in UTF-8.
unfoldable pub bars : ℕ → Bytes
bars zero = []
bars (suc n) = 0xe2 ∷ 0x94 ∷ 0x81 ∷ bars n

abbrev dash : Bytes
dash = 0xe2 ∷ 0x80 ∷ 0x94 ∷ []

abbrev newline : Bytes
newline = b'\n' ∷ []

abbrev escape : Bytes → Bytes
escape parameters = 0x1b ∷ b'[' ∷ parameters

-- `slash_ctx_t`; the memory is not used.
pub record SlashCtx (J W : Type 0) : Type 0 where
  pub agent : Option (Agent J W)
  pub provider : Option (Bytes × Bytes)
  pub scheduler : Option Scheduler
  pub skills : Option Skills

-- One line of the help.
abbrev help_line : Bytes → Bytes → Bytes
help_line command what = codes "  " ++ (padded 18 command ++ (dash ++ (b' ' ∷ (what ++ newline))))

unfoldable pub help_text : Bytes
unfolding padded bars
help_text =
    bars 3
    ++ (codes " Aham Commands "
        ++ (bars 41
            ++ (newline
                ++ (help_line (codes "/tools") (codes "List all registered tools")
                    ++ (help_line (codes "/skills") (codes "List loaded skills")
                        ++ (help_line (codes "/skills reload")
                              (codes "Re-scan skills/ directory from disk")
                            ++ (help_line (codes "/status")
                                  (codes "Agent info (provider, model, messages)")
                                ++ (help_line (codes "/tasks")
                                      (codes "List active background (scheduler) tasks")
                                    ++ (help_line (codes "/tmux")
                                          (codes "List active tmux sessions")
                                        ++ (help_line (codes "/new")
                                              (codes "Start a fresh conversation")
                                            ++ (help_line (codes "/model")
                                                  (codes "Show current model")
                                                ++ (help_line (codes "/usage")
                                                      (codes "Conversation statistics")
                                                    ++ (help_line (codes "/help")
                                                          (codes "Show this help")
                                                        ++ (help_line (codes "/quit")
                                                            (codes "Exit Aham")
                                                            ++ (bars 60 ++ newline)))))))))))))))

abbrev name_of : Option (Bytes × Bytes) → Bytes
name_of none = codes "none"
name_of (some (name, model)) = name

abbrev model_of : Option (Bytes × Bytes) → Bytes
model_of none = codes "none"
model_of (some (name, model)) = model

-- printf("%s", NULL), as glibc prints it.
abbrev or_null : Option Bytes → Bytes
or_null none = codes "(null)"
or_null (some text) = text

module _ {J W : Type 0} where
  unfoldable pub status_text : SlashCtx J W → Registry J W → Bytes
  unfolding bars decimal skills_count tool_count agent_message_count
  status_text ctx tools =
      bars 3
      ++ (codes " Aham Status "
          ++ (bars 3
              ++ (codes "\n  Version  : 1.0.0\n  Provider : "
                  ++ (name_of ctx.provider
                      ++ (codes "\n  Model    : "
                          ++ (model_of ctx.provider
                              ++ (codes "\n  Messages : "
                                  ++ (decimal (agent_message_count ctx.agent)
                                      ++ (codes "\n  Tools    : "
                                          ++ (decimal (tool_count tools)
                                              ++ (codes " registered\n  Skills   : "
                                                  ++ (decimal (skills_count ctx.skills)
                                                      ++ (codes " loaded\n"
                                                          ++ (bars 20 ++ newline))))))))))))))

  abbrev tool_row : Tool J W → Bytes
  tool_row t =
      codes "  "
      ++ (escape (codes "36m")
          ++ (padded 24 (or_null t.name)
              ++ (escape (codes "0m ") ++ (or_null t.description ++ newline))))

  unfoldable pub tool_rows : ℕ → Registry J W → Bytes → Bytes
  unfolding buf_append padded
  tool_rows room [] out = out
  tool_rows room (t ∷ ts) out = tool_rows room ts (buf_append room out (tool_row t))

  unfoldable pub cmd_tools : ℕ → Registry J W → Bytes
  unfolding tool_rows buf_append bars decimal tool_count
  cmd_tools room tools =
      let title = buf_append room [] (
        bars 3
        ++ (codes " Tools ("
            ++ (decimal (tool_count tools) ++ (codes ") " ++ (bars 3 ++ newline))))) in
      buf_append room (tool_rows room tools title) (bars 33 ++ newline)

unfoldable pub skill_rows : ℕ → List Skill → Bytes → Bytes
unfolding buf_append padded
skill_rows room [] out = out
skill_rows room (sk ∷ sks) out = skill_rows room sks (
    buf_append room out (
      codes "  "
      ++ (escape (codes "35m")
          ++ (padded 24 sk.slug ++ (escape (codes "0m ") ++ (sk.description ++ newline))))))

unfoldable pub skills_table : ℕ → List Skill → Bytes
unfolding skill_rows buf_append bars decimal
skills_table room [] =
    printed room (codes "No skills loaded. Add SKILL.md files to the skills/ directory.\n")
skills_table room (sk ∷ sks) =
    let title = buf_append room [] (
      bars 3
      ++ (codes " Skills ("
          ++ (decimal (length (sk ∷ sks)) ++ (codes ") " ++ (bars 3 ++ newline))))) in
    buf_append room (skill_rows room (sk ∷ sks) title) (
      bars 33
      ++ (codes "\n  "
          ++ (escape (codes "2mUse /skills reload to refresh from disk.")
              ++ (escape (codes "0m") ++ newline))))

abbrev skill_list : Option Skills → List Skill
skill_list none = []
skill_list (some s) = s.skills

-- The text and the table behind the scan.
unfoldable pub cmd_skills_reload : Skills.Host → ℕ → Option Skills → Bytes × Option Skills
unfolding skills_reload decimal skills_count
cmd_skills_reload host room none = (printed room (codes "Skills system not available.\n"), none)
cmd_skills_reload host room (some s) =
    let (_, s') = skills_reload host s in
    (
      printed room (
          0xe2
          ∷ 0x9c
          ∷ 0x93
          ∷ (codes " Skills reloaded. "
              ++ (decimal (skills_count (some s')) ++ codes " skill(s) loaded.\n"))),
      some s',
    )

abbrev pub or_nothing : Option Bytes → Bytes
or_nothing none = []
or_nothing (some text) = text

-- The snapshot gets what is left of the buffer.
unfoldable pub cmd_tasks : ℕ → Option Scheduler → Bytes
unfolding buf_append bars scheduler_task_snapshot
cmd_tasks room sched =
    let title =
      buf_append room [] (bars 3 ++ (codes " Background Tasks " ++ (bars 37 ++ newline))) in
    let rows = title ++ or_nothing (scheduler_task_snapshot sched (room + 1 - length title)) in
    buf_append room rows (
      bars 59
      ++ (codes "\n  "
          ++ (escape (codes "2mUse schedule_add / schedule_control tools to manage.")
              ++ (escape (codes "0m") ++ newline))))

unfoldable pub tmux_ls : Option Bytes → Bytes
tmux_ls (some (c ∷ cs)) = take 255 (codes "tmux -S '" ++ (c ∷ cs ++ codes "' ls 2>&1"))
tmux_ls _ = codes "tmux ls 2>&1"

abbrev occurs : Option (Bytes × Bytes) → Bool
occurs none = false
occurs (some _) = true

unfoldable pub is_error_line : Bytes → Bool
unfolding strstr
is_error_line line =
    occurs (strstr line (codes "no server running"))
    || (occurs (strstr line (codes "no sessions")) || occurs (strstr line (codes "error")))

abbrev no_tmux : Bytes
no_tmux = codes "  No active tmux sessions.\n"

-- The loop over the output, with the number of lines before.
unfoldable pub tmux_rows : ℕ → List Bytes → ℕ → Bytes → Bytes
unfolding buf_append is_error_line
tmux_rows room [] zero out = buf_append room out no_tmux
tmux_rows room [] (suc n) out = out
tmux_rows room (line ∷ lines) n out =
    let ended = buf_append room out no_tmux in
    let row = codes "  " ++ (escape (codes "36m") ++ (line ++ escape (codes "0m"))) in
    let more = tmux_rows room lines (suc n) (buf_append room out row) in
    if is_error_line line then ended else more

unfoldable pub tmux_body : ℕ → Option Bytes → Bytes → Bytes
unfolding tmux_rows buf_append fgets_lines
tmux_body room none out = buf_append room out (codes "  tmux not available.\n")
tmux_body room (some output) out = tmux_rows room (fgets_lines 255 output) 0 out

unfoldable pub cmd_tmux : Host → ℕ → Bytes
unfolding tmux_body tmux_ls buf_append bars
cmd_tmux host room =
    let title = buf_append room [] (bars 3 ++ (codes " tmux Sessions " ++ (bars 41 ++ newline))) in
    buf_append room
      (tmux_body room (host.popen (tmux_ls (host.getenv (codes "TMUX_SOCKET")))) title)
      (bars 59 ++ newline)

abbrev model_text : Option (Bytes × Bytes) → Bytes
model_text none = codes "Model: none (none)\n"
model_text (some (name, model)) =
    codes "Model: " ++ (model ++ (codes " (" ++ (name ++ codes ")\n")))

-- `/model`: the answer to the trimmed argument.
unfoldable pub model_answer : Option (Bytes × Bytes) → Bytes → Bytes
model_answer provider [] = model_text provider
model_answer provider (c ∷ cs) =
    codes "Set model = " ++ (c ∷ cs ++ codes " in aham.conf and restart.\n")

abbrev pub new_text : Bytes
new_text = 0xe2 ∷ 0x9c ∷ 0xa8 ∷ codes " New conversation started.\n"

module _ {J W : Type 0} where
  abbrev pub new_agent : Option (Agent J W) → Option (Agent J W)
  new_agent none = none
  new_agent (some agent) = some (agent_new_conversation agent)

  unfoldable pub after_new : SlashCtx J W → SlashCtx J W
  unfolding agent_new_conversation
  after_new ctx = record ctx { agent = new_agent ctx.agent }

  unfoldable pub after_reload : Skills.Host → ℕ → SlashCtx J W → Bytes × SlashCtx J W
  unfolding cmd_skills_reload
  after_reload disk room ctx =
      let (out, skills) = cmd_skills_reload disk room ctx.skills in
      (out, record ctx { skills = skills })

  -- The commands from `/model` on.
  unfoldable pub line_command : SlashCtx J W → Bytes → Bytes
  unfolding has_prefix str_trim model_answer decimal agent_message_count equal
  line_command ctx input =
      if has_prefix input (codes "/model")
      then model_answer ctx.provider (str_trim (drop 6 input))
      else if equal input (codes "/usage")
      then codes "Messages in conversation: "
        ++ (decimal (agent_message_count ctx.agent) ++ codes "\n")
      else if equal input (codes "/quit") || equal input (codes "/exit")
      then codes "__QUIT__"
      else codes "Unknown command: " ++ (input ++ codes "  (try /help)\n")

  -- The chain of tests on a line that starts with a slash.
  unfoldable pub run_slash :
      Host → Skills.Host → ℕ → Registry J W → SlashCtx J W → Bytes → Bytes × SlashCtx J W
  unfolding help_text status_text cmd_tools after_reload skills_table cmd_tasks cmd_tmux after_new
      line_command equal
  run_slash host disk room tools ctx input =
      if equal input (codes "/help")
      then (printed room help_text, ctx)
      else if equal input (codes "/status")
      then (printed room (status_text ctx tools), ctx)
      else if equal input (codes "/tools")
      then (cmd_tools room tools, ctx)
      else if equal input (codes "/skills reload")
      then after_reload disk room ctx
      else if equal input (codes "/skills")
      then (skills_table room (skill_list ctx.skills), ctx)
      else if equal input (codes "/tasks")
      then (cmd_tasks room ctx.scheduler, ctx)
      else if equal input (codes "/tmux")
      then (cmd_tmux host room, ctx)
      else if equal input (codes "/new")
      then (printed room new_text, after_new ctx)
      else (printed room (line_command ctx input), ctx)

  -- `none` where the input is not handled.
  unfoldable pub slash_handle :
      Host
      → Skills.Host
      → ℕ
      → Registry J W
      → SlashCtx J W
      → Option Bytes
      → Option (Bytes × SlashCtx J W)
  unfolding run_slash
  slash_handle host disk room tools ctx none = none
  slash_handle host disk room tools ctx (some []) = none
  slash_handle host disk room tools ctx (some (c ∷ cs)) =
      if c == b'/' then some (run_slash host disk room tools ctx (c ∷ cs)) else none
