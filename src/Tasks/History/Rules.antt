-- ===== src/Tasks/History/Rules.antt =====
-- Actions that leave a row that has ended as it is: rules for the ways to build one, the writes of
-- a single execution, and `report_result`.
use ops_monitor.Common.Table.Laws.{All-get}
use ops_monitor.Common.Table
use ops_monitor.Common.Table.{Table}
use ops_monitor.Servers.{OpsServer}
use ops_monitor.Tasks.Retry.{is_retryable}
use ops_monitor.Common.Int.{ℤ}
use ops_monitor.Common.Action.Post.{Post, Post-continue, Post-imp}
use ops_monitor.Tasks.History.Writes.{
  History, aggregate_task_status-executions, Other, can_retry-executions, save-Holds, Holds,
  open-Other,
}
use ops_monitor.Tasks.Service.Status.{aggregate_task_status, can_retry, get_task_entity}
use ops_monitor.Tasks.Session.{Session}
use ops_monitor.Common.{
  Bool, Option, String, if◌then◌else◌, ◌≡◌, str_eq, true, false, subst, sym, ℕ, arith, some,
  Bool-cases, inl, inr,
}
use ops_monitor.Tasks.Service.Dispatch.{
  record_success, schedule_retry, give_up, fail, record_failure, record_result, TaskResult,
  own_execution, report_result,
}
use ops_monitor.Tasks.Model.{
  OpsTaskExecution, OpsTask, Status, Message, is_terminal, execution_entity,
}
use ops_monitor.Common.Action.{◌>>=◌, Action}
use ops_monitor.Tasks.Repository.Executions
use ops_monitor.Tasks.Repository.Logs

module _ (e : OpsTaskExecution) where
  abbrev pub Keeps : {A : Type 0} → Action Session A → Type 0
  Keeps m = (s : Session) → History e s → Post (λ _ s'. History e s') (m s)

  -- An action that leaves the executions alone.
  pub Keeps-of_same :
      {A : Type 0} (m : Action Session A)
      → ((s : Session) → Post (λ _ s'. s'.executions ≡ s.executions) (m s))
      → Keeps m
  Keeps-of_same m same s h =
      Post-imp (λ _ s'. s'.executions ≡ s.executions) (λ _ s'. History e s') (m s)
        (λ _ s' q. subst (Holds e) (sym q) h) (same s)

  pub aggregate-Keeps : (task : OpsTask) → Keeps (aggregate_task_status task)
  aggregate-Keeps task =
      Keeps-of_same (aggregate_task_status task) (aggregate_task_status-executions task)

  pub finish-Keeps :
      (x : OpsTaskExecution) (st : Status) (c : Option ℤ) (r : Option String) (m : Option Message)
      (t : Option String)
      → Other e x
      → Keeps (Executions.finish x st c r m t)
  unfolding Executions.finish
  finish-Keeps x st c r m t ne s h = save-Holds e _ s.executions ne h

  pub record_success-Keeps :
      (x : OpsTaskExecution) (r : TaskResult) → Other e x → Keeps (record_success x r)
  unfolding record_success Executions.finish Logs.record_log
  record_success-Keeps x r ne s h = save-Holds e _ s.executions ne h

  pub schedule_retry-Keeps :
      (x : OpsTaskExecution) (r : TaskResult) (t : String)
      → Other e x
      → Keeps (schedule_retry x r t)
  unfolding schedule_retry Executions.mark_retrying Logs.record_log
  schedule_retry-Keeps x r t ne s h = save-Holds e _ s.executions ne h

  pub give_up-Keeps :
      (x : OpsTaskExecution) (r : TaskResult) (t : String) → Other e x → Keeps (give_up x r t)
  unfolding give_up Executions.mark_dead Logs.record_log
  give_up-Keeps x r t ne s h = save-Holds e _ s.executions ne h

  pub fail-Keeps :
      (x : OpsTaskExecution) (r : TaskResult) (t : String) → Other e x → Keeps (fail x r t)
  unfolding fail Executions.finish Logs.record_log
  fail-Keeps x r t ne s h = save-Holds e _ s.executions ne h

  pub if-Keeps :
      {A : Type 0} (b : Bool) (m n : Action Session A)
      → Keeps m
      → Keeps n
      → Keeps (if b then m else n)
  if-Keeps true m n km kn = km
  if-Keeps false m n km kn = kn

  pub bind-Keeps :
      {A B : Type 0} (m : Action Session A) (f : A → Action Session B)
      → Keeps m
      → ((a : A) → Keeps (f a))
      → Keeps (m >>= f)
  bind-Keeps m f km kf s h =
      Post-continue (λ _ s'. History e s') (λ _ s'. History e s') (m s) f (km s h)
        (λ a s' h'. kf a s' h')

  pub can_retry-Keeps : (task : OpsTask) (x : OpsTaskExecution) → Keeps (can_retry task x)
  can_retry-Keeps task x = Keeps-of_same (can_retry task x) (can_retry-executions task x)

  pub record_failure-Keeps :
      (task : OpsTask) (x : OpsTaskExecution) (r : TaskResult)
      → Other e x
      → Keeps (record_failure task x r)
  unfolding record_failure
  record_failure-Keeps task x r ne =
      if-Keeps (is_retryable r.error_type r.error_message) _ (fail x r _)
        (bind-Keeps (can_retry task x) _ (can_retry-Keeps task x) (λ budget.
          if-Keeps budget (schedule_retry x r _) (give_up x r _) (schedule_retry-Keeps x r _ ne)
            (give_up-Keeps x r _ ne)))
        (fail-Keeps x r _ ne)

  pub record_result-Keeps :
      (task : OpsTask) (x : OpsTaskExecution) (r : TaskResult)
      → Other e x
      → Keeps (record_result task x r)
  unfolding record_result
  record_result-Keeps task x r ne =
      if-Keeps (str_eq r.status "SUCCESS") (record_success x r) (record_failure task x r)
        (record_success-Keeps x r ne) (record_failure-Keeps task x r ne)

  pub own_execution_lem :
      (server : OpsServer) (k : ℕ) (s : Session)
      → Post (λ x s'. (s' ≡ s) × (Table.get k s.executions ≡ some x)) (own_execution server k s)
  unfolding own_execution
  own_execution_lem server k s = ground arith

  pub get_task_entity-Keeps : (k : ℕ) → Keeps (get_task_entity k)
  unfolding get_task_entity
  get_task_entity-Keeps k s h = ground arith

  module _ (done : is_terminal e.status ≡ true) where
    pub found-Other :
        (k : ℕ) (t : Table OpsTaskExecution) (x : OpsTaskExecution)
        → Holds e t
        → Table.get k t ≡ some x
        → is_terminal x.status ≡ false
        → Other e x
    found-Other k t x h g =
        All-get (λ y. is_terminal y.status ≡ false → Other e y) k t (open-Other e t done h) g

    pub report_result-Keeps : (server : OpsServer) (r : TaskResult) → Keeps (report_result server r)
    unfolding report_result
    report_result-Keeps server r s h =
        Post-continue (λ x s'. (s' ≡ s) × (Table.get r.execution_id s.executions ≡ some x))
          (λ _ s'. History e s') (own_execution server r.execution_id s) _
          (own_execution_lem server r.execution_id s)
          (λ x s' q. rw q.0 (elim (Bool-cases (is_terminal x.status)) [
            | inl t ↦ rw t h
            | inr f ↦ rw f (
                bind-Keeps (get_task_entity x.task_id) _ (get_task_entity-Keeps x.task_id)
                  (λ task.
                    bind-Keeps (record_result task x r) _
                      (record_result-Keeps task x r
                        (found-Other r.execution_id s.executions x h q.1 f))
                      (λ x'.
                        bind-Keeps (aggregate_task_status task) _ (aggregate-Keeps task)
                          (λ _ s'' h''. h'')))
                  s h)
          ]))
