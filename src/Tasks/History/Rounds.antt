-- ===== src/Tasks/History/Rounds.antt =====
-- The rounds of the loops of `TaskService` on a row that has ended.
use ops_monitor.Tasks.Service.Status.{aggregate_task_status}
use ops_monitor.Tasks.Repository.Rows.{save_task}
use ops_monitor.Exceptions.{attribute_error, Error}
use ops_monitor.Common.Action.Post.{Post-or_raise}
use ops_monitor.Tasks.History.Writes.{Other, save-Holds, create_execution-History, History}
use ops_monitor.Tasks.History.Rules.{
  Keeps, Keeps-of_same, bind-Keeps, aggregate-Keeps, finish-Keeps,
}
use ops_monitor.Common.{
  ℕ, ◌≡◌, false, Option, Bool-cases, arith, true, none, inl, some, ◌+◌, refl, inr,
}
use ops_monitor.Tasks.Service.Scans.{time_out, next_attempt, exhaust, reset_target}
use ops_monitor.Tasks.Service.Creation.{cancel_execution}
use ops_monitor.Tasks.Service.Dispatch.{hand_out, start_task}
use ops_monitor.Tasks.Model.{
  OpsTaskExecution, is_terminal, OpsTask, task_entity, Status, LogContent, is_pending, LogLevel,
  failed, cancelled, pending, text, attempt_created, info,
}
use ops_monitor.Common.Table
use ops_monitor.Common.Action.{or_raise, pure}
use ops_monitor.Tasks.Repository.Executions
use ops_monitor.Tasks.Repository.Logs

pub pending_is_open : (st : Status) → is_pending st ≡ true → is_terminal st ≡ false
pending_is_open pending p = refl
pending_is_open _ p = ground arith

module _ (e : OpsTaskExecution) where
  abbrev pub IsOpen : OpsTaskExecution → Type 0
  IsOpen x = is_terminal x.status ≡ false → Other e x

  pub pure-Keeps : {A : Type 0} (a : A) → Keeps e (pure a)
  pure-Keeps a s h = h

  pub save_task-Keeps : (task : OpsTask) → Keeps e (save_task task)
  save_task-Keeps task s h = h

  pub start_task-Keeps : (task : OpsTask) → Keeps e (start_task task)
  start_task-Keeps task = Keeps-of_same e (start_task task) (λ s. unfold start_task in ground arith)

  pub mark_running-Keeps : (x : OpsTaskExecution) → Other e x → Keeps e (Executions.mark_running x)
  unfolding Executions.mark_running
  mark_running-Keeps x ne s h = save-Holds e _ s.executions ne h

  pub find_task-Keeps : (o : Option OpsTask) (x : Error) → Keeps e (or_raise o x)
  find_task-Keeps o x s h = Post-or_raise (λ _ s'. History e s') o x s (λ _ _. h)

  pub hand_out-Keeps : (x : OpsTaskExecution) → Other e x → Keeps e (hand_out x)
  unfolding hand_out
  hand_out-Keeps x ne s =
      bind-Keeps e (or_raise (Table.get x.task_id s.tasks) attribute_error) _
        (find_task-Keeps _ attribute_error)
        (λ task.
          bind-Keeps e (Executions.mark_running x) _ (mark_running-Keeps x ne)
            (λ _. bind-Keeps e (start_task task) _ (start_task-Keeps task) (λ _ _ h. h)))
        s

  pub cancel_execution-Keeps : (x : OpsTaskExecution) → IsOpen x → Keeps e (cancel_execution x)
  unfolding cancel_execution
  cancel_execution-Keeps x o s h = elim (Bool-cases (is_pending x.status)) [
    | inl p ↦ rw p (
        bind-Keeps e (Executions.finish x cancelled none none (some (text "任务被取消")) none) _
          (finish-Keeps e x cancelled none none _ none (o (pending_is_open x.status p)))
          (λ _. pure-Keeps tt) s h)
    | inr q ↦ rw q h
  ]

  pub time_out-Keeps : (n : ℕ) (x : OpsTaskExecution) → Other e x → Keeps e (time_out n x)
  unfolding time_out Executions.mark_timeout
  time_out-Keeps n x ne s h = save-Holds e _ s.executions ne h

  pub create_execution-Keeps : (t k v a : ℕ) → Keeps e (Executions.create_execution t k v a)
  create_execution-Keeps t k v a s h = create_execution-History e t k v a s h

  pub reset_target-Keeps : (k : ℕ) → Keeps e (reset_target k)
  reset_target-Keeps k = Keeps-of_same e (reset_target k) (λ s. unfold reset_target in ground arith)

  pub log-Keeps : (k : ℕ) (c : LogContent) (l : LogLevel) → Keeps e (Logs.record_log k c l)
  unfolding Logs.record_log
  log-Keeps k c l s h = h

  pub next_attempt-Keeps :
      (task : OpsTask) (x : OpsTaskExecution) → Other e x → Keeps e (next_attempt task x)
  unfolding next_attempt
  next_attempt-Keeps task x ne =
      let task' = record task { attempt = x.attempt + 1 } in
      bind-Keeps e (Executions.finish x failed none none x.error_message x.error_type) _
        (finish-Keeps e x failed none none x.error_message x.error_type ne)
        (λ _.
          bind-Keeps e (Executions.create_execution task.id x.target_id x.server_id (x.attempt + 1))
            _ (create_execution-Keeps task.id x.target_id x.server_id (x.attempt + 1))
            (λ _. bind-Keeps e (save_task task') _ (save_task-Keeps task') (λ _.
              bind-Keeps e (reset_target x.target_id) _ (reset_target-Keeps x.target_id) (λ _.
                bind-Keeps e (Logs.record_log x.id (attempt_created (x.attempt + 1)) info) _
                  (log-Keeps x.id (attempt_created (x.attempt + 1)) info)
                  (λ _.
                    bind-Keeps e (aggregate_task_status task') (λ _. pure 1)
                      (aggregate-Keeps e task') (λ _ _ h. h))))))

  pub exhaust-Keeps : (task : OpsTask) (x : OpsTaskExecution) → Other e x → Keeps e (exhaust task x)
  unfolding exhaust Executions.mark_dead Logs.record_log
  exhaust-Keeps task x ne s h =
      bind-Keeps e (aggregate_task_status task) (λ _. pure 0) (aggregate-Keeps e task) (λ _ _ h. h)
        _ (save-Holds e _ s.executions ne h)
