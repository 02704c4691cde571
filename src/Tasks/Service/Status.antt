-- ===== src/Tasks/Service/Status.antt =====
-- `_aggregate_task_status`, `_can_retry` and `get_task_entity`.
use ops_monitor.Tasks.Repository.Rows.{save_task}
use ops_monitor.Exceptions.{app, task_not_found}
use ops_monitor.Tasks.Aggregate.{aggregate_status}
use ops_monitor.Tasks.Model.{OpsTask, OpsTaskExecution, is_terminal, task_entity}
use ops_monitor.Common.{ℕ, Bool, if◌then◌else◌, leb, false, none, some, true, ltb}
use ops_monitor.Tasks.Session.{utcnow, Session}
use ops_monitor.Common.Table
use ops_monitor.Common.Action.{◌>>=◌, Action, gets, or_raise, pure}
use ops_monitor.Tasks.Repository.Executions

-- A task without executions gets PENDING and no end.
unfoldable pub aggregate_task_status : OpsTask → Action Session OpsTask
unfolding utcnow
aggregate_task_status task = do
  executions ← gets (Executions.list_by_task task.id)
  let status = aggregate_status executions
  if is_terminal status
      then (do now ← utcnow; save_task (record task { status = status; finished_at = some now }))
      else save_task (record task { status = status })

unfoldable pub can_retry : OpsTask → OpsTaskExecution → Action Session Bool
unfolding utcnow
can_retry task e = if leb task.max_attempts e.attempt then pure false else elim task.deadline_at [
  | none ↦ pure true
  | some deadline ↦ (do now ← utcnow; pure (ltb now deadline))
]

unfoldable pub get_task_entity : ℕ → Action Session OpsTask
get_task_entity task_id s = or_raise (Table.get task_id s.tasks) (app task_not_found) s
