-- ===== src/Scheduler/Register.antt =====
-- tools/scheduler/scheduler.c, `scheduler_register_tools`. What the three tools act on is the time with
-- the table, or the fault that one of them has met.
use vajra_ai.Prelude.{ℕ, Option, none, some, ◌++◌}
use vajra_ai.CString.{Bytes, codes}
use vajra_ai.Memory.{Outcome, done, fault}
use vajra_ai.Cjson.{Cjson}
use vajra_ai.ToolRegistry.{Tool, Registry, tool_register}
use vajra_ai.Scheduler.{Scheduler, tool_schedule_add, tool_schedule_list, tool_schedule_control}

-- The time that time() gives, and the scheduler.
abbrev pub Clocked : Type 0
Clocked = ℕ × Outcome Scheduler

abbrev after_call : ℕ → Outcome (Option Bytes × Scheduler) → Option Bytes × Clocked
after_call now (fault e) = (none, (now, fault e))
after_call now (done (out, s)) = (out, (now, done s))

unfoldable pub call_on :
    (ℕ → Scheduler → Outcome (Option Bytes × Scheduler)) → Clocked → Option Bytes × Clocked
call_on f (now, fault e) = (none, (now, fault e))
call_on f (now, done s) = after_call now (f now s)

module _ {J : Type 0} (cj : Cjson J) where
  add_tool : Tool J Clocked
  add_tool = record {
    name = some (codes "schedule_add");
    description = some (codes "Schedule a recurring command");
    parameters_schema = some (
        codes "{\"type\":\"object\",\"properties\":{"
        ++ (codes "\"name\":{\"type\":\"string\",\"description\":\"A name for this task\"},"
            ++ (codes "\"command\":{\"type\":\"string\",\"description\":\"Shell command to run\"},"
                ++ (codes "\"interval\":{\"type\":\"string\","
                    ++ (codes "\"description\":\"Interval (e.g. 'every 5 minutes')\"}"
                        ++ codes "},\"required\":[\"name\",\"command\",\"interval\"]}")))));
    execute = some (λ args. call_on (λ now. tool_schedule_add cj now args));
  }

  list_tool : Tool J Clocked
  list_tool = record {
    name = some (codes "schedule_list");
    description = some (codes "List all scheduled tasks");
    parameters_schema = some (codes "{\"type\":\"object\",\"properties\":{}}");
    execute = some (λ args. call_on (λ now s. done (tool_schedule_list cj s, s)));
  }

  ctrl_tool : Tool J Clocked
  ctrl_tool = record {
    name = some (codes "schedule_control");
    description = some (codes "Pause, resume, or delete a scheduled task");
    parameters_schema = some (
        codes "{\"type\":\"object\",\"properties\":{"
        ++ (codes "\"task_id\":{\"type\":\"integer\",\"description\":\"Task ID\"},"
            ++ (codes "\"action\":{\"type\":\"string\",\"enum\":[\"pause\",\"resume\",\"delete\"],"
                ++ (codes "\"description\":\"Action to perform\"}"
                    ++ codes "},\"required\":[\"task_id\",\"action\"]}"))));
    execute = some (λ args. call_on (λ now s. done (tool_schedule_control cj args s)));
  }

  -- A tool that is refused is passed over.
  unfoldable pub scheduler_register_tools : Registry J Clocked → Registry J Clocked
  unfolding tool_register add_tool list_tool ctrl_tool call_on
  scheduler_register_tools tools =
      let with_add = (tool_register tools add_tool).1 in
      let with_list = (tool_register with_add list_tool).1 in (tool_register with_list ctrl_tool).1
