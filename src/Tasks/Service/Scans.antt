-- ===== src/Tasks/Service/Scans.antt =====
-- The scheduled scans: `scan_timeouts`, `dispatch_retries`, `cleanup_history`, `fire_due_cron`.
use ops_monitor.Tasks.Repository.Rows.{save_task}
use ops_monitor.Tasks.Retry.{text_or, unknown_error_type, is_given}
use ops_monitor.Tasks.Model.{
  OpsTaskExecution, OpsTask, Message, failed, is_running, is_terminal, attempt_created, running,
  task_entity, pending, info, text, LogContent, target_entity, error, timed_out,
}
use ops_monitor.Tasks.Session.{utcnow, Session, days}
use ops_monitor.Tasks.Service.Status.{aggregate_task_status, get_task_entity, can_retry}
use ops_monitor.Common.{
  ℕ, Option, String, List, if◌then◌else◌, Bool, ◌-◌, none, ◌∷◌, str_eq, ◌+◌, length, some, ◌&&◌,
  or_else, ◌==◌, false, leb, [],
}
use ops_monitor.Common.Table
use ops_monitor.Common.Action.{◌>>=◌, ◌>>◌, Action, pure, gets, for_each, ok, sum_each}
use ops_monitor.Tasks.Repository.Executions
use ops_monitor.Tasks.Repository.Targets
use ops_monitor.Tasks.Repository.Tasks
use ops_monitor.Tasks.Repository.Logs

-- `[e for e in executions if is_expired(e, timeout)]`: the clock is read at each running one.
unfoldable pub filter_expired : ℕ → List OpsTaskExecution → Action Session (List OpsTaskExecution)
filter_expired timeout_seconds [] = pure []
filter_expired timeout_seconds (e ∷ executions) =
    Executions.is_expired timeout_seconds e >>= λ expired.
    filter_expired timeout_seconds executions >>= λ rest. pure (if expired then e ∷ rest else rest)

unfoldable pub time_out : ℕ → OpsTaskExecution → Action Session (Unit {0})
time_out timeout_seconds e = do Executions.mark_timeout e timeout_seconds; pure tt

-- One round of the loop of `scan_timeouts`: how many executions of the task ran out of time.
unfoldable pub scan_task : OpsTask → Action Session ℕ
unfolding filter_expired time_out aggregate_task_status
scan_task task = do
  executions ← gets (Executions.list_by_task task.id)
  expired ← filter_expired task.timeout_seconds executions
  for_each expired (time_out task.timeout_seconds)
  if length expired == 0 then pure 0 else (do aggregate_task_status task; pure (length expired))

unfoldable pub scan_timeouts : Action Session ℕ
unfolding scan_task
scan_timeouts = do
  tasks ← gets (λ s. Table.list_all (λ t. is_running t.status) s.tasks)
  sum_each tasks scan_task

abbrev pub message_or : Option Message → Message → Message
message_or none d = d
message_or (some (text t)) d = if str_eq t "" then d else text t
message_or (some (timed_out n)) d = timed_out n

unfoldable pub reset_target : ℕ → Action Session (Unit {0})
reset_target target_id s = elim (Table.get target_id s.targets) [
  | none ↦ ok (tt, s)
  | some target ↦
      ok (
        tt,
        record s { targets = Table.save (record target { target_status = pending }) s.targets },
      )
]

-- The attempt is filed as failed and the next one created.
unfoldable pub next_attempt : OpsTask → OpsTaskExecution → Action Session ℕ
unfolding reset_target aggregate_task_status
next_attempt task e = do
  Executions.finish e failed none none e.error_message e.error_type
  Executions.create_execution task.id e.target_id e.server_id (e.attempt + 1)
  let task' = record task { attempt = e.attempt + 1 }
  save_task task'
  reset_target e.target_id
  Logs.record_log e.id (attempt_created (e.attempt + 1)) info
  aggregate_task_status task'
  pure 1

unfoldable pub exhaust : OpsTask → OpsTaskExecution → Action Session ℕ
unfolding aggregate_task_status
exhaust task e = do
  Executions.mark_dead e (text_or e.error_type unknown_error_type)
      (some (message_or e.error_message (text "重试预算耗尽")))
  Logs.record_log e.id (LogContent.text (text "重试预算耗尽，任务终止")) error
  aggregate_task_status task
  pure 0

-- One round of the loop of `dispatch_retries`: 1 if a new attempt was created.
unfoldable pub retry_one : OpsTaskExecution → Action Session ℕ
unfolding get_task_entity can_retry next_attempt exhaust
retry_one e = do
  task ← get_task_entity e.task_id
  if is_terminal task.status
      then (do Executions.finish e failed none none e.error_message e.error_type; pure 0)
      else (do budget ← can_retry task e; if budget then next_attempt task e else exhaust task e)

abbrev pub retry_limit : ℕ
retry_limit = 50

unfoldable pub dispatch_retries : Action Session ℕ
unfolding retry_one utcnow
dispatch_retries = do
  now ← utcnow
  due ← gets (Executions.list_due_retries now retry_limit)
  sum_each due retry_one

-- `cutoff` is no time before the epoch: no row ended before that either.
unfoldable pub cleanup_history : ℕ → Action Session (ℕ × ℕ)
unfolding utcnow
cleanup_history retention_days = do
  now ← utcnow
  let cutoff = now - days retention_days
  executions ← Executions.delete_terminal_before cutoff
  tasks ← Tasks.delete_finished_tasks_before cutoff
  pure (executions, tasks)

-- `croniter(expression, base).get_next(datetime)`, of a library: none where it raises.
module _ (cron_next : String → ℕ → Option ℕ) where
  unfoldable pub is_due_cron : ℕ → OpsTask → Bool
  is_due_cron now task =
      str_eq task.schedule_type "CRON"
      && is_given task.cron_expression
      && elim (cron_next (or_else task.cron_expression "") (or_else task.created_at now)) [
        | none ↦ false
        | some next_time ↦ leb next_time now
      ]

  unfoldable pub fire_one : ℕ → OpsTask → Action Session ℕ
  unfolding is_due_cron
  fire_one now task =
      if is_due_cron now task
      then (do
        targets ← gets (Targets.list_by_task task.id)
        Executions.create_executions task.id targets
        save_task
            (record task { status = running; started_at = some (or_else task.started_at now) })
        pure 1)
      else pure 0

  unfoldable pub fire_due_cron : Action Session ℕ
  unfolding fire_one utcnow
  fire_due_cron = do
    now ← utcnow
    tasks ← gets Tasks.list_pending_cron
    sum_each tasks (fire_one now)
