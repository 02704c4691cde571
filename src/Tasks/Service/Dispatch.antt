-- ===== src/Tasks/Service/Dispatch.antt =====
-- `fetch_pending` and `report_result`: what an agent asks for and sends back.
use ops_monitor.Exceptions.{attribute_error, app, task_execution_not_found}
use ops_monitor.Tasks.Repository.Rows.{save_task}
use ops_monitor.Tasks.Retry.{classify_error, text_or, is_retryable, backoff_seconds}
use ops_monitor.Common.Int.{ℤ}
use ops_monitor.Tasks.Service.Status.{can_retry, get_task_entity, aggregate_task_status}
use ops_monitor.Servers.{OpsServer}
use ops_monitor.Tasks.Model.{
  OpsTaskExecution, OpsTask, Message, text, failed, success, is_terminal, running, not_retryable,
  LogContent, retry_planned, error, info, task_entity, execution_entity,
}
use ops_monitor.Tasks.Session.{utcnow, Session, seconds}
use ops_monitor.Common.{ℕ, Option, String, List, some, if◌then◌else◌, ◌+◌, none, str_eq, not, ◌==◌}
use ops_monitor.Common.Table
use ops_monitor.Common.Action.{◌>>=◌, ◌>>◌, Action, gets, or_raise, map_each, pure, raise_if}
use mathlib.Core.Option
use ops_monitor.Tasks.Repository.Executions
use ops_monitor.Tasks.Repository.Logs

pub record PendingTask : Type 0 where
  pub execution_id : ℕ
  pub task_id : ℕ
  pub action : String
  pub service_name : Option String
  pub timeout_seconds : ℕ

-- `task.started_at or _utcnow()`
unfoldable pub start_task : OpsTask → Action Session OpsTask
unfolding utcnow
start_task task = elim task.started_at [
  | some _ ↦ save_task (record task { status = running })
  | none ↦ (do now ← utcnow; save_task (record task { status = running; started_at = some now }))
]

-- One round of the loop of `fetch_pending`.
unfoldable pub hand_out : OpsTaskExecution → Action Session PendingTask
unfolding start_task
hand_out e = do
  found ← gets (λ s. Table.get e.task_id s.tasks)
  task ← or_raise found attribute_error
  Executions.mark_running e
  start_task task
  pure (record {
    execution_id = e.id;
    task_id = task.id;
    action = task.action;
    service_name = task.service_name;
    timeout_seconds = task.timeout_seconds;
  })

abbrev pub fetch_limit : ℕ
fetch_limit = 10

unfoldable pub fetch_pending : OpsServer → Action Session (List PendingTask)
unfolding hand_out
fetch_pending server = do
  executions ← gets (Executions.fetch_pending_by_server server.id fetch_limit)
  map_each executions hand_out

pub record TaskResult : Type 0 where
  pub execution_id : ℕ
  pub status : String
  pub exit_code : Option ℤ
  pub result_text : Option String
  pub error_message : Option String
  pub error_type : Option String
  pub logs : Option String

abbrev pub as_message : Option String → Option Message
as_message m = Option.map text m

-- The three ways in which a failure ends an attempt.
unfoldable pub schedule_retry :
    OpsTaskExecution → TaskResult → String → Action Session OpsTaskExecution
unfolding utcnow
schedule_retry e r failed_type = do
  now ← utcnow
  let next_retry_at = now + seconds (backoff_seconds e.attempt)
  e' ← Executions.mark_retrying e failed_type (as_message r.error_message) next_retry_at
  Logs.record_log e.id (retry_planned e.attempt failed_type next_retry_at) error
  pure e'

unfoldable pub give_up : OpsTaskExecution → TaskResult → String → Action Session OpsTaskExecution
give_up e r failed_type = do
  e' ← Executions.mark_dead e failed_type (some (text (text_or r.error_message "重试预算耗尽")))
  Logs.record_log e.id (not_retryable failed_type) error
  pure e'

unfoldable pub fail : OpsTaskExecution → TaskResult → String → Action Session OpsTaskExecution
fail e r failed_type = do
  e' ← Executions.finish e failed r.exit_code none (as_message r.error_message) (some failed_type)
  Logs.record_log e.id (LogContent.text (text (text_or r.error_message "执行失败"))) error
  pure e'

unfoldable pub record_success : OpsTaskExecution → TaskResult → Action Session OpsTaskExecution
record_success e r = do
  e' ← Executions.finish e success r.exit_code r.result_text none none
  Logs.record_log e.id (LogContent.text (text (text_or r.logs (text_or r.result_text "执行成功")))) info
  pure e'

unfoldable pub record_failure :
    OpsTask → OpsTaskExecution → TaskResult → Action Session OpsTaskExecution
unfolding schedule_retry give_up fail can_retry
record_failure task e r =
    let failed_type = classify_error r.error_type r.error_message in
    if is_retryable r.error_type r.error_message
    then (do
      budget ← can_retry task e
      if budget then schedule_retry e r failed_type else give_up e r failed_type)
    else fail e r failed_type

unfoldable pub record_result :
    OpsTask → OpsTaskExecution → TaskResult → Action Session OpsTaskExecution
unfolding record_success record_failure
record_result task e r =
    if str_eq r.status "SUCCESS" then record_success e r else record_failure task e r

-- An execution of this server, or 404.
unfoldable pub own_execution : OpsServer → ℕ → Action Session OpsTaskExecution
own_execution server execution_id = do
  found ← gets (λ s. Table.get execution_id s.executions)
  e ← or_raise found (app task_execution_not_found)
  raise_if (not (e.server_id == server.id)) (app task_execution_not_found)
  pure e

unfoldable pub report_result : OpsServer → TaskResult → Action Session OpsTaskExecution
unfolding own_execution get_task_entity record_result aggregate_task_status
report_result server r = do
  e ← own_execution server r.execution_id
  if is_terminal e.status then pure e else (do
    task ← get_task_entity e.task_id
    e' ← record_result task e r
    aggregate_task_status task
    pure e')
