-- ===== src/Tests/Tasks.antt =====
-- tools/scheduler/scheduler.c at concrete tables.
use vajra_ai.Prelude.{
  ℕ, zero, suc, ◌*◌, ◌^◌, ◌≤◌, ◌<◌, ◌≡◌, refl, ◌∙◌, true, false, none, some, List, [], ◌∷◌, map,
  all, arith, ltb, if◌then◌else◌, length, length-append, lt→leb-false, take,
}
use vajra_ai.Prelude.Int.{pos, negsuc}
use vajra_ai.CString.{codes, equal, is_space, skip_space, has_prefix, strstr}
use vajra_ai.CString.Number.{
  is_digit, scan_digits, scan_unsigned, with_sign, scan_signed, scan_int, int_result,
}
use vajra_ai.Memory.{done, fault, signed_overflow}
use vajra_ai.Cjson.{string_arg, error_json}
use vajra_ai.Scheduler.{
  max_tasks, Task, Scheduler, scheduler_create, is_due, run_due, scheduler_tick, new_task, add_task,
  apply_action, is_target, control_task, add_result, schedule_add, add_with, tool_schedule_add,
}
use vajra_ai.Scheduler.Interval.{
  scan_word, with_word, scan_unit, scan_every, unit_seconds, only_positive, plain_seconds,
  in_seconds, interval_from, parse_interval, minutes, every_text, parse_interval-every_text,
}
use vajra_ai.Scheduler.Reach.{
  Step, added, Steps, here, next, Steps-IsValid, scheduler_tick-is_some, schedule_add-full,
}
use vajra_ai.Scheduler.Step.{IsNumbered, IsValid, is_some}
use vajra_ai.Scheduler.Due.{scheduler_tick-due, scheduler_tick-again, select, due_again}
use vajra_ai.Scheduler.Control.{
  has_target, on_target, has_due, control_task-on_target, control_task-delete, control_task-pause,
}
use vajra_ai.Scheduler.Snapshot.{
  scheduler_task_snapshot, full_table, scheduler_task_snapshot-full_table,
}
use vajra_ai.Tests.Json.{Json, str, obj, field, end, json, get_field}

-- Words that are not "every N unit": only a number that leads the text is read.
interval_runs :
    (parse_interval (codes "5 minutes") ≡ done (pos 5))
    × (parse_interval (codes "*/5 * * * *") ≡ done (negsuc 0))
    × (parse_interval (codes "every 2 hours") ≡ done (pos 7200))
    × (parse_interval (codes "every 40000 days") ≡ fault signed_overflow)
unfolding parse_interval interval_from scan_every scan_unit scan_word with_word scan_int scan_signed
    scan_unsigned with_sign scan_digits is_digit skip_space is_space has_prefix strstr unit_seconds
    in_seconds int_result plain_seconds only_positive
interval_runs = (refl, refl, refl, refl)

parse_interval-every_text_example :
    parse_interval (every_text 5 minutes)
    ≡ (if ltb (5 * 60) (2 ^ 31) then done (pos (5 * 60)) else fault signed_overflow)
parse_interval-every_text_example = parse_interval-every_text 5 minutes (omega arith)

abbrev args : Json
args = obj (
    field (codes "name") (str (codes "n"))
      (field (codes "command") (str (codes "c")) (field (codes "interval") (str (codes "5")) end)))

Step-add_task :
    (s : Scheduler)
    → length s.tasks < max_tasks
    → Step json s (add_task 0 (codes "n") (codes "c") 5 s)
unfolding tool_schedule_add add_with schedule_add string_arg get_field equal parse_interval
    interval_from scan_every has_prefix plain_seconds only_positive scan_int skip_space is_space
    scan_signed scan_unsigned with_sign scan_digits is_digit int_result
Step-add_task s h =
    added 0 args (add_result json s.next_id (codes "n") 5)
      (rw (lt→leb-false (length s.tasks) max_tasks h) refl)

filled : ℕ → Scheduler
filled zero = scheduler_create
filled (suc n) = add_task 0 (codes "n") (codes "c") 5 (filled n)

length-filled : (n : ℕ) → length (filled n).tasks ≡ n
unfolding filled add_task
length-filled zero = refl
length-filled (suc n) =
    length-append (filled n).tasks (new_task (filled n).next_id 0 (codes "n") (codes "c") 5 ∷ [])
    ∙ omega (arith, length-filled n)

Steps-filled : (n : ℕ) → n ≤ max_tasks → Steps json scheduler_create (filled n)
unfolding filled
Steps-filled zero h = here
Steps-filled (suc n) h =
    next (Steps-filled n (omega arith)) (Step-add_task (filled n) (omega (arith, length-filled n)))

schedule_add-full_example :
    schedule_add json 7 (codes "m") (codes "d") (pos 3) (filled 64)
    ≡ (error_json (codes "Max tasks reached"), filled 64)
schedule_add-full_example =
    schedule_add-full json 7 (codes "m") (codes "d") 2 (Steps-filled 64 (omega arith))
      (length-filled 64) here

Steps-IsValid_example : IsValid (filled 2)
Steps-IsValid_example = Steps-IsValid json (Steps-filled 2 (omega arith))

scheduler_tick-is_some_example : all is_some (scheduler_tick 9 (filled 2)).1 ≡ true
scheduler_tick-is_some_example = scheduler_tick-is_some json 9 (Steps-filled 2 (omega arith))

-- Three tasks: one due every second, one paused, one deleted.
abbrev table : List Task
table =
    record (new_task 1 0 (codes "a") (codes "ls") 1) { paused = false }
    ∷ record (new_task 2 0 (codes "b") (codes "ps") 1) { paused = true }
    ∷ record (new_task 3 0 (codes "c") (codes "df") 1) {
      active = false;
      name = none;
      command = none;
    }
    ∷ []

abbrev sched : Scheduler
sched = record { tasks = table; next_id = 4 }

table-IsNumbered : IsNumbered 1 table
table-IsNumbered =
    (refl, omega arith, refl, (refl, omega arith, refl, (refl, omega arith, refl, tt)))

tick_runs :
    ((scheduler_tick 5 sched).1 ≡ some (codes "ls") ∷ [])
    × ((scheduler_tick 5 (scheduler_tick 5 sched).0).1 ≡ [])
unfolding scheduler_tick run_due is_due
tick_runs = (refl, refl)

scheduler_tick-due_example :
    ((scheduler_tick 5 sched).1 ≡ map (λ (t : Task). t.command) (select (is_due 5) table))
    × ((scheduler_tick 5 sched).0 ≡ record sched {
      tasks = map (λ (t : Task). if is_due 5 t then record t { last_run = 5 } else t) table;
    })
scheduler_tick-due_example = scheduler_tick-due 5 sched

scheduler_tick-again_example :
    (scheduler_tick 6 (scheduler_tick 5 sched).0).1
    ≡ map (λ (t : Task). t.command) (select (due_again 5 6) table)
scheduler_tick-again_example = scheduler_tick-again 5 6 sched

control_task-on_target_example :
    control_task (pos 2) (codes "resume") table
    ≡ (if has_target 2 table then some (map (on_target 2 (codes "resume")) table) else none)
control_task-on_target_example = control_task-on_target 2 (codes "resume") 1 table table-IsNumbered

abbrev deleted : List Task
deleted = map (on_target 1 (codes "delete")) table

control_task-delete_example : control_task (pos 1) (codes "resume") deleted ≡ none
control_task-delete_example =
    control_task-delete 1 1 (codes "resume") table deleted table-IsNumbered
      (unfold control_task is_target apply_action equal in refl)

control_task-pause_example : has_due 9 1 (map (on_target 1 (codes "pause")) table) ≡ false
control_task-pause_example =
    control_task-pause 9 1 1 table (map (on_target 1 (codes "pause")) table) table-IsNumbered
      (unfold control_task is_target apply_action equal in refl)

scheduler_task_snapshot-full_table_example :
    scheduler_task_snapshot (some sched) 100 ≡ some (take 99 (full_table table))
scheduler_task_snapshot-full_table_example = scheduler_task_snapshot-full_table sched 99
