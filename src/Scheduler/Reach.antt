-- ===== src/Scheduler/Reach.antt =====
-- tools/scheduler/scheduler.c: the states that any sequence of tool calls and rounds leads to.
use mathlib.Core.Path.{subst}
use vajra_ai.Prelude.{
  ℕ, zero, suc, ◌≤◌, ◌≡◌, refl, sym, ap, ◌∙◌, inl, inr, true, Option, none, some, List, [], ◌∷◌,
  all, arith, leb, length, length-append, Bool-cases, leb-false→lt, le→leb,
}
use vajra_ai.Prelude.Int.{ℤ, pos, negsuc}
use vajra_ai.CString.{Bytes, codes}
use vajra_ai.Memory.{Outcome, done, fault, ◌>>=◌, Ensures}
use vajra_ai.Cjson.{Cjson, string_arg, error_json}
use vajra_ai.Scheduler.Interval.{parse_interval}
use vajra_ai.Scheduler.{
  max_tasks, Task, Scheduler, scheduler_create, is_due, run_due, scheduler_tick, new_task, add_task,
  schedule_add, add_with, tool_schedule_add, control_reply, schedule_control, control_with,
  tool_schedule_control,
}
use vajra_ai.Scheduler.Step.{
  IsNumbered, IsValid, is_some, has_texts, KeepsOption, control_task-Keeps, run_due-Keeps,
  IsValid-tick, IsValid-add_task,
}

-- A valid state with at least as many tasks.
abbrev Extends : Scheduler → Scheduler → Type 0
Extends s s' = IsValid s' × (length s.tasks ≤ length s'.tasks)

module _ {J : Type 0} (cj : Cjson J) where
  schedule_add-Extends :
      (now : ℕ) (name command : Bytes) (n : ℤ) (s : Scheduler)
      → IsValid s
      → Extends s (schedule_add cj now name command n s).1
  unfolding schedule_add add_task
  schedule_add-Extends now name command (pos zero) s v = (v, omega arith)
  schedule_add-Extends now name command (negsuc n) s v = (v, omega arith)
  schedule_add-Extends now name command (pos (suc n)) s v =
      elim (Bool-cases (leb max_tasks (length s.tasks))) [
        | inl e ↦ rw e (v, omega arith)
        | inr e ↦ rw e (
          IsValid-add_task now name command n s (leb-false→lt max_tasks (length s.tasks) e) v,
          omega (arith, length-append s.tasks (new_task s.next_id now name command (suc n) ∷ [])),
        )
      ]

  abbrev AddExtends : Scheduler → Outcome (Option Bytes × Scheduler) → Type 0
  AddExtends s m = Ensures (λ _. Unit {0}) (λ (r : Option Bytes × Scheduler). Extends s r.1) m

  parsed-Extends :
      (now : ℕ) (name command : Bytes) (m : Outcome ℤ) (s : Scheduler)
      → IsValid s
      → AddExtends s (m >>= λ n. done (schedule_add cj now name command n s))
  parsed-Extends now name command (done n) s v = schedule_add-Extends now name command n s v
  parsed-Extends now name command (fault f) s v = tt

  add_with-Extends :
      (now : ℕ) (name command interval : Option Bytes) (s : Scheduler)
      → IsValid s
      → AddExtends s (add_with cj now name command interval s)
  unfolding add_with
  add_with-Extends now (some name) (some command) (some interval) s v =
      parsed-Extends now name command (parse_interval interval) s v
  add_with-Extends now none command interval s v = (v, omega arith)
  add_with-Extends now (some name) none interval s v = (v, omega arith)
  add_with-Extends now (some name) (some command) none s v = (v, omega arith)

  control_reply-Extends :
      (task_id : ℤ) (action : Bytes) (s : Scheduler) (o : Option (List Task))
      → IsValid s
      → KeepsOption 1 s.tasks o
      → Extends s (control_reply cj task_id action s o).1
  unfolding control_reply
  control_reply-Extends task_id action s none v h = (v, omega arith)
  control_reply-Extends task_id action s (some ts) v (numbered, same) = (
    record {
      numbered = numbered;
      next = v.next ∙ ap suc (sym same);
      bounded = omega (arith, same, v.bounded);
    },
    omega (arith, same),
  )

  control_with-Extends :
      (id_val : Option J) (action : Option Bytes) (s : Scheduler)
      → IsValid s
      → Extends s (control_with cj id_val action s).1
  unfolding control_with schedule_control
  control_with-Extends (some i) (some action) s v =
      control_reply-Extends (cj.int_value i) action s _ v
        (control_task-Keeps (cj.int_value i) action 1 s.tasks v.numbered)
  control_with-Extends none action s v = (v, omega arith)
  control_with-Extends (some i) none s v = (v, omega arith)

-- One step of the scheduler: a call of a tool that returns, or a round of the thread.
pub data Step {J : Type 0} (cj : Cjson J) (s : Scheduler) : Scheduler → Type 0 where
  added :
      (now : ℕ) (args : J) (reply : Option Bytes) {s' : Scheduler}
      → tool_schedule_add cj now args s ≡ done (reply, s')
      → Step cj s s'
  controlled : (args : J) → Step cj s (tool_schedule_control cj args s).1
  ticked : (now : ℕ) → Step cj s (scheduler_tick now s).0

-- Any number of steps.
pub data Steps {J : Type 0} (cj : Cjson J) (s : Scheduler) : Scheduler → Type 0 where
  here : Steps cj s s
  next : {t u : Scheduler} → Steps cj s t → Step cj t u → Steps cj s u

due-is_some :
    (now : ℕ) (t : Task) → has_texts t ≡ true → is_due now t ≡ true → is_some t.command ≡ true
unfolding is_due
due-is_some now t h e = ground arith

run_due-is_some :
    (now k : ℕ) (ts : List Task) → IsNumbered k ts → all is_some (run_due now ts).1 ≡ true
unfolding run_due
run_due-is_some now k [] h = refl
run_due-is_some now k (t ∷ ts) (i, p, x, h) = elim (Bool-cases (is_due now t)) [
  | inl e ↦ rw (e, run_due, due-is_some now t x e) (run_due-is_some now (suc k) ts h)
  | inr e ↦ rw (e, run_due) (run_due-is_some now (suc k) ts h)
]

module _ {J : Type 0} (cj : Cjson J) where
  from_done :
      (s s' : Scheduler) (reply : Option Bytes) (m : Outcome (Option Bytes × Scheduler))
      → AddExtends cj s m
      → m ≡ done (reply, s')
      → Extends s s'
  from_done s s' reply m h e = subst (AddExtends cj s) e h

  Step-Extends : {s s' : Scheduler} → Step cj s s' → IsValid s → Extends s s'
  unfolding tool_schedule_add tool_schedule_control scheduler_tick
  Step-Extends {s} {s'} (added now args reply e) v =
      from_done s s' reply (tool_schedule_add cj now args s)
        (add_with-Extends cj now (string_arg cj args (codes "name"))
          (string_arg cj args (codes "command")) (string_arg cj args (codes "interval")) s v)
        e
  Step-Extends {s} (controlled args) v =
      control_with-Extends cj (cj.object_item args (codes "task_id"))
        (string_arg cj args (codes "action")) s v
  Step-Extends {s} (ticked now) v =
      (IsValid-tick now s v, omega (arith, (run_due-Keeps now 1 s.tasks v.numbered).1))

  Steps-Extends : {s s' : Scheduler} → Steps cj s s' → IsValid s → Extends s s'
  Steps-Extends here v = (v, omega arith)
  Steps-Extends (next p q) v =
      let (valid, longer) = Steps-Extends p v in
      let (valid', longer') = Step-Extends q valid in (valid', omega arith)

  create-IsValid : IsValid scheduler_create
  create-IsValid = record { numbered = tt; next = refl; bounded = omega arith }

  -- After any steps from a new scheduler, the table holds at most 64 tasks, the task at position i
  -- has the id i counted from 1, the next id is one above the last, every interval is above 0, and
  -- every active task has its name and its command.
  pub Steps-IsValid : {s : Scheduler} → Steps cj scheduler_create s → IsValid s
  Steps-IsValid p = (Steps-Extends p create-IsValid).0

  -- After any steps from a new scheduler, no round of the thread starts a command that is NULL:
  -- deleted tasks, whose commands are, never run.
  pub scheduler_tick-is_some :
      {s : Scheduler} (now : ℕ)
      → Steps cj scheduler_create s
      → all is_some (scheduler_tick now s).1 ≡ true
  unfolding scheduler_tick
  scheduler_tick-is_some {s} now p = run_due-is_some now 1 s.tasks (Steps-IsValid p).numbered

  -- Once 64 tasks have been added, no sequence of steps makes room for another, deletions included:
  -- the tool answers that the maximum is reached, and changes nothing.
  pub schedule_add-full :
      {s s' : Scheduler} (now : ℕ) (name command : Bytes) (n : ℕ)
      → Steps cj scheduler_create s
      → length s.tasks ≡ max_tasks
      → Steps cj s s'
      → schedule_add cj now name command (pos (suc n)) s'
        ≡ (error_json (codes "Max tasks reached"), s')
  unfolding schedule_add
  schedule_add-full {s} {s'} now name command n p full q =
      let (valid, longer) = Steps-Extends q (Steps-IsValid p) in
      let room : max_tasks ≤ length s'.tasks = omega arith in
      rw (le→leb max_tasks (length s'.tasks) room) refl
