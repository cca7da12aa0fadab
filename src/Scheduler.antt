-- ===== src/Scheduler.antt =====
-- tools/scheduler/scheduler.c: the table of tasks, the tools that change it, and one round of the
-- background thread. The mutex makes each of these a step of its own. The clock is an argument.
pub mod Interval
pub mod Snapshot
pub mod Step
pub mod Reach
pub mod Due
pub mod Control
pub mod Register
use vajra_ai.Prelude.{
  ℕ, zero, suc, ◌+◌, Bool, true, false, not, ◌&&◌, ◌||◌, Option, none, some, List, [], ◌∷◌, ◌++◌,
  ltb, leb, ◌==◌, if◌then◌else◌, length,
}
use vajra_ai.Prelude.Int.{ℤ, pos, negsuc}
use vajra_ai.CString.{Bytes, codes, equal}
use vajra_ai.Memory.{Outcome, done, fault, ◌>>=◌}
use vajra_ai.Cjson.{Cjson, string_arg, error_json}
use vajra_ai.ToolRegistry.{or_empty}
use vajra_ai.Scheduler.Interval.{parse_interval}

abbrev pub max_tasks : ℕ
max_tasks = 64

-- `sched_task_t`; name and command are NULL in a deleted task. An interval is above 0 here, since
-- `tool_schedule_add` admits no other.
pub record Task : Type 0 where
  pub id : ℕ
  pub name : Option Bytes
  pub command : Option Bytes
  pub interval_sec : ℕ
  pub last_run : ℕ
  pub paused : Bool
  pub active : Bool

-- `struct scheduler`: the tasks in use and the next id.
pub record Scheduler : Type 0 where
  pub tasks : List Task
  pub next_id : ℕ

abbrev pub scheduler_create : Scheduler
scheduler_create = record { tasks = []; next_id = 1 }

-- The condition of the thread's loop: `now - last_run >= interval_sec`, where the clock may have
-- been set back.
unfoldable pub is_due : ℕ → Task → Bool
is_due now task = (task.active && not task.paused) && leb (task.last_run + task.interval_sec) now

abbrev pub restarted : ℕ → Task → Task
restarted now task = record task { last_run = now }

-- One round of `scheduler_thread` over the tasks: the tasks afterwards, and the commands that are
-- handed to `scheduler_run_async`.
unfoldable pub run_due : ℕ → List Task → List Task × List (Option Bytes)
unfolding is_due
run_due now [] = ([], [])
run_due now (task ∷ tasks) =
    let rest = run_due now tasks in
    if is_due now task
    then (restarted now task ∷ rest.0, task.command ∷ rest.1)
    else (task ∷ rest.0, rest.1)

unfoldable pub scheduler_tick : ℕ → Scheduler → Scheduler × List (Option Bytes)
unfolding run_due
scheduler_tick now s = let round = run_due now s.tasks in (record s { tasks = round.0 }, round.1)

-- The new task of `tool_schedule_add`, which takes the next id.
abbrev pub new_task : ℕ → ℕ → Bytes → Bytes → ℕ → Task
new_task id now name command interval = record {
  id = id;
  name = some name;
  command = some command;
  interval_sec = interval;
  last_run = now;
  paused = false;
  active = true;
}

unfoldable pub add_task : ℕ → Bytes → Bytes → ℕ → Scheduler → Scheduler
add_task now name command interval s = record {
  tasks = s.tasks ++ new_task s.next_id now name command interval ∷ [];
  next_id = suc s.next_id;
}

-- strcmp(action, …) decides; an action that is none of the three changes nothing.
unfoldable pub apply_action : Bytes → Task → Task
unfolding equal
apply_action action task =
    if equal action (codes "pause")
    then record task { paused = true }
    else if equal action (codes "resume")
    then record task { paused = false }
    else if equal action (codes "delete")
    then record task { active = false; name = none; command = none }
    else task

-- `t->id == task_id && t->active`
unfoldable pub is_target : ℤ → Task → Bool
is_target (pos n) task = task.id == n && task.active
is_target (negsuc _) task = false

unfoldable pub cons_task : Task → Option (List Task) → Option (List Task)
cons_task task none = none
cons_task task (some tasks) = some (task ∷ tasks)

-- The loop of `tool_schedule_control`; `none` if no task is found.
unfoldable pub control_task : ℤ → Bytes → List Task → Option (List Task)
unfolding is_target apply_action cons_task
control_task task_id action [] = none
control_task task_id action (task ∷ tasks) =
    if is_target task_id task
    then some (apply_action action task ∷ tasks)
    else cons_task task (control_task task_id action tasks)

module _ {J : Type 0} (cj : Cjson J) where
  unfoldable pub add_result : ℕ → Bytes → ℕ → Option Bytes
  add_result task_id name interval =
      let status = cj.add_string cj.create_object (codes "status") (codes "scheduled") in
      let with_id = cj.add_number status (codes "task_id") task_id in
      let with_name = cj.add_string with_id (codes "name") name in
      cj.print (cj.add_number with_name (codes "interval_seconds") interval)

  -- `tool_schedule_add` behind the test of its arguments.
  unfoldable pub schedule_add : ℕ → Bytes → Bytes → ℤ → Scheduler → Option Bytes × Scheduler
  unfolding error_json add_task add_result
  schedule_add now name command (pos (suc n)) s =
      if leb max_tasks (length s.tasks)
      then (error_json (codes "Max tasks reached"), s)
      else (add_result s.next_id name (suc n), add_task now name command (suc n) s)
  schedule_add now name command _ s =
      (error_json (codes "Invalid interval. Use 'every N seconds/minutes/hours'"), s)

  unfoldable pub add_with :
      ℕ
      → Option Bytes
      → Option Bytes
      → Option Bytes
      → Scheduler
      → Outcome (Option Bytes × Scheduler)
  unfolding schedule_add error_json parse_interval
  add_with now (some name) (some command) (some interval) s =
      parse_interval interval >>= λ n. done (schedule_add now name command n s)
  add_with now _ _ _ s = done (error_json (codes "name, command, and interval required"), s)

  unfoldable pub tool_schedule_add : ℕ → J → Scheduler → Outcome (Option Bytes × Scheduler)
  unfolding add_with string_arg
  tool_schedule_add now args s =
      add_with now (string_arg cj args (codes "name")) (string_arg cj args (codes "command"))
        (string_arg cj args (codes "interval")) s

  unfoldable pub task_item : Task → J
  task_item t =
      let with_id = cj.add_number cj.create_object (codes "id") t.id in
      let with_name = cj.add_string with_id (codes "name") (or_empty t.name) in
      let with_command = cj.add_string with_name (codes "command") (or_empty t.command) in
      let timed = cj.add_number with_command (codes "interval_seconds") t.interval_sec in
      cj.add_bool timed (codes "paused") t.paused

  unfoldable pub task_array : J → List Task → J
  unfolding task_item
  task_array arr [] = arr
  task_array arr (t ∷ ts) =
      task_array (if t.active then cj.add_to_array arr (task_item t) else arr) ts

  unfoldable pub tool_schedule_list : Scheduler → Option Bytes
  unfolding task_array
  tool_schedule_list s = cj.print (task_array cj.create_array s.tasks)

  unfoldable pub scheduler_task_json : Option Scheduler → Option Bytes
  unfolding task_array
  scheduler_task_json none = cj.print cj.create_array
  scheduler_task_json (some s) = cj.print (task_array cj.create_array s.tasks)

  unfoldable pub control_result : ℤ → Bytes → Option Bytes
  control_result task_id action = cj.print (
      cj.add_int (cj.add_string cj.create_object (codes "status") action) (codes "task_id") task_id)

  unfoldable pub control_reply :
      ℤ → Bytes → Scheduler → Option (List Task) → Option Bytes × Scheduler
  unfolding control_result error_json
  control_reply task_id action s none = (error_json (codes "Task not found"), s)
  control_reply task_id action s (some tasks) =
      (control_result task_id action, record s { tasks = tasks })

  unfoldable pub schedule_control : ℤ → Bytes → Scheduler → Option Bytes × Scheduler
  unfolding control_task control_reply
  schedule_control task_id action s =
      control_reply task_id action s (control_task task_id action s.tasks)

  unfoldable pub control_with : Option J → Option Bytes → Scheduler → Option Bytes × Scheduler
  unfolding schedule_control error_json
  control_with (some id_val) (some action) s = schedule_control (cj.int_value id_val) action s
  control_with _ _ s = (error_json (codes "task_id and action required"), s)

  unfoldable pub tool_schedule_control : J → Scheduler → Option Bytes × Scheduler
  unfolding control_with string_arg
  tool_schedule_control args s =
      control_with (cj.object_item args (codes "task_id")) (string_arg cj args (codes "action")) s
