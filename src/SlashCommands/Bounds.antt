-- ===== src/SlashCommands/Bounds.antt =====
-- ux/slash_commands.c: what a command prints fits the output buffer, and which commands change the
-- context.
use mathlib.Core.Path.{subst}
use vajra_ai.Prelude.{
  ℕ, zero, suc, ◌+◌, ◌-◌, ◌≤◌, ◌≡◌, refl, sym, inl, inr, ap, ◌∙◌, if_each, true, false, Option,
  none, some, List, [], ◌∷◌, ◌++◌, arith, leb, ◌==◌, if◌then◌else◌, length, take, length-append,
  length-take, Bool-cases,
}
use vajra_ai.CString.{Bytes, codes, equal, has_prefix}
use vajra_ai.Types.{str_starts_with}
use vajra_ai.Files.{fgets_lines}
use vajra_ai.ToolRegistry.{Registry}
use vajra_ai.Scheduler.{Scheduler}
use vajra_ai.Scheduler.Snapshot.{
  scheduler_task_snapshot, full_table, scheduler_task_snapshot-full_table,
}
use vajra_ai.Skills
use vajra_ai.Skills.{Skill, Skills, skills_scan, skills_reload}
use vajra_ai.Agent.State.{Agent, agent_new_conversation}
use vajra_ai.CString.Laws.{equal_iff}
use vajra_ai.Gateway.{Host}
use vajra_ai.SlashCommands.{
  printed, buf_append, SlashCtx, tool_rows, cmd_tools, skill_rows, skills_table, cmd_skills_reload,
  or_nothing, cmd_tasks, is_error_line, tmux_ls, tmux_rows, tmux_body, cmd_tmux, new_agent,
  after_new, after_reload, run_slash, slash_handle,
}

abbrev Fits : ℕ → Bytes → Type 0
Fits room out = length out ≤ room

printed-Fits : (room : ℕ) (text : Bytes) → Fits room (printed room text)
printed-Fits room text = omega (arith, length-take room text)

buf_append-Fits :
    (room : ℕ) (buf text : Bytes) → Fits room buf → Fits room (buf_append room buf text)
unfolding buf_append
buf_append-Fits room buf text h = elim (Bool-cases (leb room (length buf))) [
  | inl full ↦ rw full h
  | inr left ↦ rw left (
      omega (
        arith,
        length-append buf (take (room - length buf) text),
        length-take (room - length buf) text,
        h,
      ))
]

module _ {J W : Type 0} where
  tool_rows-Fits :
      (room : ℕ) (tools : Registry J W) (out : Bytes)
      → Fits room out
      → Fits room (tool_rows room tools out)
  unfolding tool_rows
  tool_rows-Fits room [] out h = h
  tool_rows-Fits room (t ∷ ts) out h = tool_rows-Fits room ts _ (buf_append-Fits room out _ h)

  cmd_tools-Fits : (room : ℕ) (tools : Registry J W) → Fits room (cmd_tools room tools)
  unfolding cmd_tools
  cmd_tools-Fits room tools =
      buf_append-Fits room _ _
        (tool_rows-Fits room tools _ (buf_append-Fits room [] _ (omega arith)))

skill_rows-Fits :
    (room : ℕ) (sks : List Skill) (out : Bytes)
    → Fits room out
    → Fits room (skill_rows room sks out)
unfolding skill_rows
skill_rows-Fits room [] out h = h
skill_rows-Fits room (sk ∷ sks) out h = skill_rows-Fits room sks _ (buf_append-Fits room out _ h)

skills_table-Fits : (room : ℕ) (sks : List Skill) → Fits room (skills_table room sks)
unfolding skills_table
skills_table-Fits room [] = printed-Fits room _
skills_table-Fits room (sk ∷ sks) =
    buf_append-Fits room _ _
      (skill_rows-Fits room (sk ∷ sks) _ (buf_append-Fits room [] _ (omega arith)))

cmd_skills_reload-Fits :
    (disk : Skills.Host) (room : ℕ) (sk : Option Skills)
    → Fits room ((cmd_skills_reload disk room sk).0)
unfolding cmd_skills_reload
cmd_skills_reload-Fits disk room none = printed-Fits room _
cmd_skills_reload-Fits disk room (some s) = printed-Fits room _

snapshot-Fits :
    (sched : Option Scheduler) (size : ℕ)
    → length (or_nothing (scheduler_task_snapshot sched (suc size))) ≤ size
snapshot-Fits none size = unfold scheduler_task_snapshot in printed-Fits size _
snapshot-Fits (some s) size =
    rw (scheduler_task_snapshot-full_table s size) (printed-Fits size (full_table s.tasks))

rows-Fits :
    (room : ℕ) (title : Bytes) (sched : Option Scheduler)
    → Fits room title
    → Fits room (title ++ or_nothing (scheduler_task_snapshot sched (room + 1 - length title)))
rows-Fits room title sched h =
    let size : room + 1 - length title ≡ suc (room - length title) = omega (arith, h) in
    rw size (
      omega (
        arith,
        h,
        snapshot-Fits sched (room - length title),
        length-append title
            (or_nothing (scheduler_task_snapshot sched (suc (room - length title)))),
      ))

cmd_tasks-Fits : (room : ℕ) (sched : Option Scheduler) → Fits room (cmd_tasks room sched)
unfolding cmd_tasks
cmd_tasks-Fits room sched =
    buf_append-Fits room _ _ (rows-Fits room _ sched (buf_append-Fits room [] _ (omega arith)))

tmux_rows-Fits :
    (room : ℕ) (lines : List Bytes) (n : ℕ) (out : Bytes)
    → Fits room out
    → Fits room (tmux_rows room lines n out)
unfolding tmux_rows
tmux_rows-Fits room [] zero out h = buf_append-Fits room out _ h
tmux_rows-Fits room [] (suc n) out h = h
tmux_rows-Fits room (line ∷ lines) n out h = elim (Bool-cases (is_error_line line)) [
  | inl bad ↦ rw (bad, tmux_rows) (buf_append-Fits room out _ h)
  | inr good ↦
      rw (good, tmux_rows) (tmux_rows-Fits room lines (suc n) _ (buf_append-Fits room out _ h))
]

tmux_body-Fits :
    (room : ℕ) (output : Option Bytes) (out : Bytes)
    → Fits room out
    → Fits room (tmux_body room output out)
unfolding tmux_body
tmux_body-Fits room none out h = buf_append-Fits room out _ h
tmux_body-Fits room (some output) out h = tmux_rows-Fits room (fgets_lines 255 output) 0 out h

cmd_tmux-Fits : (host : Host) (room : ℕ) → Fits room (cmd_tmux host room)
unfolding cmd_tmux
cmd_tmux-Fits host room = buf_append-Fits room _ _ (
    tmux_body-Fits room (host.popen (tmux_ls (host.getenv (codes "TMUX_SOCKET")))) _
      (buf_append-Fits room [] _ (omega arith)))

-- The agent with no message in its history, and the skills behind a scan, where they are there.
abbrev pub emptied : {J W : Type 0} → Option (Agent J W) → Option (Agent J W)
emptied none = none
emptied (some agent) = some (record agent { messages = [] })

abbrev pub rescanned : Skills.Host → Option Skills → Option Skills
rescanned disk none = none
rescanned disk (some s) = some (skills_scan disk s)

-- What a command leaves of the context: all of it, but for two commands.
pub data Left {J W : Type 0} (disk : Skills.Host) (ctx : SlashCtx J W) (input : Bytes)
    : SlashCtx J W → Type 0 where
  same :
      equal input (codes "/new") ≡ false
      → equal input (codes "/skills reload") ≡ false
      → Left disk ctx input ctx
  cleared :
      equal input (codes "/new") ≡ true
      → Left disk ctx input (record ctx { agent = emptied ctx.agent })
  scanned :
      equal input (codes "/skills reload") ≡ true
      → Left disk ctx input (record ctx { skills = rescanned disk ctx.skills })

-- A command that is neither of the two.
same_by :
    {J W : Type 0} {disk : Skills.Host} {ctx : SlashCtx J W} {input : Bytes} (command : Bytes)
    → equal command (codes "/new") ≡ false
    → equal command (codes "/skills reload") ≡ false
    → equal input command ≡ true
    → Left disk ctx input ctx
same_by {input = input} command f g e =
    let is : input ≡ command = (equal_iff input command).0 e in
    same (ap (λ (s : Bytes). equal s (codes "/new")) is ∙ f)
      (ap (λ (s : Bytes). equal s (codes "/skills reload")) is ∙ g)

scanned_lem :
    (disk : Skills.Host) (room : ℕ) (sk : Option Skills)
    → (cmd_skills_reload disk room sk).1 ≡ rescanned disk sk
unfolding cmd_skills_reload skills_reload
scanned_lem disk room none = refl
scanned_lem disk room (some s) = refl

new_agent_lem : {J W : Type 0} (agent : Option (Agent J W)) → new_agent agent ≡ emptied agent
unfolding agent_new_conversation
new_agent_lem none = refl
new_agent_lem (some agent) = refl

-- An input that begins with a slash is handled, and no other.
pub data Answer {J W : Type 0} (disk : Skills.Host) (room : ℕ) (ctx : SlashCtx J W)
    : Option Bytes → Option (Bytes × SlashCtx J W) → Type 0 where
  ignored :
      {input : Option Bytes}
      → str_starts_with input (some (codes "/")) ≡ false
      → Answer disk room ctx input none
  handled :
      {input out : Bytes} {left : SlashCtx J W}
      → str_starts_with (some input) (some (codes "/")) ≡ true
      → Fits room out
      → Left disk ctx input left
      → Answer disk room ctx (some input) (some (out, left))

module _ {J W : Type 0} (host : Host) (disk : Skills.Host) (room : ℕ) (tools : Registry J W)
    (ctx : SlashCtx J W) where
  abbrev Keeps : Bytes → Bytes × SlashCtx J W → Type 0
  Keeps input r = Fits room r.0 × Left disk ctx input r.1

  after_new_lem :
      (input : Bytes) → equal input (codes "/new") ≡ true → Left disk ctx input (after_new ctx)
  unfolding after_new
  after_new_lem input e =
      subst (λ (a : Option (Agent J W)). Left disk ctx input (record ctx { agent = a }))
        (sym (new_agent_lem ctx.agent)) (cleared e)

  reload-Keeps :
      (input : Bytes)
      → equal input (codes "/skills reload") ≡ true
      → Keeps input (after_reload disk room ctx)
  unfolding after_reload
  reload-Keeps input e = (
    cmd_skills_reload-Fits disk room ctx.skills,
    subst (λ (sk : Option Skills). Left disk ctx input (record ctx { skills = sk }))
        (sym (scanned_lem disk room ctx.skills)) (scanned e),
  )

  run_slash-Keeps : (input : Bytes) → Keeps input (run_slash host disk room tools ctx input)
  unfolding run_slash equal
  run_slash-Keeps input =
      let P : Bytes × SlashCtx J W → Type 0 = Keeps input in
      if_each P (equal input (codes "/help"))
        (λ e. (printed-Fits room _, same_by (codes "/help") refl refl e))
        (λ a.
          if_each P (equal input (codes "/status"))
            (λ e. (printed-Fits room _, same_by (codes "/status") refl refl e))
            (λ b.
              if_each P (equal input (codes "/tools"))
                (λ e. (cmd_tools-Fits room tools, same_by (codes "/tools") refl refl e))
                (λ c.
                  if_each P (equal input (codes "/skills reload")) (λ e. reload-Keeps input e)
                    (λ d.
                      if_each P (equal input (codes "/skills"))
                        (λ e. (skills_table-Fits room _, same_by (codes "/skills") refl refl e))
                        (λ f.
                          if_each P (equal input (codes "/tasks"))
                            (λ e. (
                              cmd_tasks-Fits room ctx.scheduler,
                              same_by (codes "/tasks") refl refl e,
                            ))
                            (λ g.
                              if_each P (equal input (codes "/tmux"))
                                (λ e.
                                  (cmd_tmux-Fits host room, same_by (codes "/tmux") refl refl e))
                                (λ h.
                                  if_each P (equal input (codes "/new"))
                                    (λ e. (printed-Fits room _, after_new_lem input e))
                                    (λ i. (printed-Fits room _, same i d)))))))))

  at_slash :
      (c : ℕ) (cs : Bytes) (r : Bytes × SlashCtx J W)
      → Keeps (c ∷ cs) r
      → Answer disk room ctx (some (c ∷ cs)) (if c == b'/' then some r else none)
  unfolding str_starts_with has_prefix
  at_slash c cs (out, left) (fits, keeps) = elim (Bool-cases (c == b'/')) [
    | inl slash ↦ rw slash (handled (rw slash refl) fits keeps)
    | inr other ↦ rw other (ignored (rw other refl))
  ]

  -- An input is handled just where it begins with a slash. What a command prints then fits the room of
  -- the buffer, whatever the tools, skills, tasks and programs of the host are, and the context is as
  -- before, but /new leaves the agent without messages and /skills reload leaves the skills of a scan.
  pub slash_handle-Answer :
      (input : Option Bytes)
      → Answer disk room ctx input (slash_handle host disk room tools ctx input)
  unfolding slash_handle str_starts_with
  slash_handle-Answer none = ignored refl
  slash_handle-Answer (some []) = ignored refl
  slash_handle-Answer (some (c ∷ cs)) = at_slash c cs _ (run_slash-Keeps (c ∷ cs))
