-- ===== src/Tasks/Repository/Rows.antt =====
-- Flushes of a row, and SQL tests on columns that may be NULL.
use ops_monitor.Common.{ℕ, String, Bool, false, Option, none, some, str_eq, ltb}
use ops_monitor.Common.Action.{Action, ok}
use ops_monitor.Common.Table
use ops_monitor.Tasks.Model.{
  OpsTask, OpsTaskTarget, OpsTaskExecution, task_entity, target_entity, execution_entity,
}
use ops_monitor.Tasks.Session.{Session}

abbrev pub save_task : OpsTask → Action Session OpsTask
save_task t s = ok (t, record s { tasks = Table.save t s.tasks })

abbrev pub save_target : OpsTaskTarget → Action Session OpsTaskTarget
save_target t s = ok (t, record s { targets = Table.save t s.targets })

abbrev pub save_execution : OpsTaskExecution → Action Session OpsTaskExecution
save_execution e s = ok (e, record s { executions = Table.save e s.executions })

-- `a is None or a < b` the other way round: `a IS NOT NULL AND a < b`.
abbrev pub is_before : Option ℕ → ℕ → Bool
is_before none t = false
is_before (some a) t = ltb a t

abbrev pub same_text : Option String → Option String → Bool
same_text (some a) (some b) = str_eq a b
same_text _ _ = false
