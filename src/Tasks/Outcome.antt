-- ===== src/Tasks/Outcome.antt =====
-- What becomes of an execution that an agent reports on.
use ops_monitor.Common.Table
use ops_monitor.Common.Table.{Table}
use ops_monitor.Tasks.Retry.Policy.{IsBackoff}
use ops_monitor.Common.{◌*◌}
use ops_monitor.Tasks.Retry.{is_retryable}
use ops_monitor.Common.Action.Post.{Post}
use ops_monitor.Tasks.Session.{Session}
use ops_monitor.Common.{str_eq, ◌≡◌, true, ℕ, ◌<◌, false, ◌≤◌, ◌⊎◌, some, ◌+◌, none, Bool}
use ops_monitor.Tasks.Service.Dispatch.{TaskResult}
use ops_monitor.Tasks.Model.{
  task_entity, execution_entity, OpsTask, OpsTaskExecution, success, retrying, dead, failed,
}
use ops_monitor.Tasks.Repository.Executions
use ops_monitor.Tasks.Repository.Logs

-- The budget of a task at a time: an attempt is left and the deadline is to come.
pub record HasBudget (task : OpsTask) (e : OpsTaskExecution) (now : ℕ) : Type 0 where
  pub attempts_left : e.attempt < task.max_attempts
  pub in_time : (deadline : ℕ) → task.deadline_at ≡ some deadline → now < deadline

abbrev pub IsSpent : OpsTask → OpsTaskExecution → ℕ → Type 0
IsSpent task e now =
    (task.max_attempts ≤ e.attempt)
    ⊎ ((deadline : ℕ) × ((task.deadline_at ≡ some deadline) × (deadline ≤ now)))

-- The time from which a retry is counted: the reading after the one that the deadline, if there is
-- any, is compared with.
abbrev pub planned_at : OpsTask → Session → ℕ
planned_at task s = elim task.deadline_at [ none ↦ s.clock 0 | some _ ↦ s.clock 1 ]

-- The ways in which an open execution of a task can go on from a session, by the result that is
-- reported.
pub data Outcome (task : OpsTask) (r : TaskResult) (e : OpsTaskExecution) (s : Session)
    (new : OpsTaskExecution) : Type 0 where
  succeeded : str_eq r.status "SUCCESS" ≡ true → new.status ≡ success → Outcome task r e s new
  -- Another attempt is planned after the waiting time: there are attempts left.
  again :
      (wait : ℕ)
      → str_eq r.status "SUCCESS" ≡ false
      → is_retryable r.error_type r.error_message ≡ true
      → HasBudget task e (s.clock 0)
      → IsBackoff e.attempt wait
      → new.status ≡ retrying
      → new.next_retry_at ≡ some (planned_at task s + wait * 1000000)
      → Outcome task r e s new
  -- No attempts are left, or the deadline is over.
  exhausted :
      str_eq r.status "SUCCESS" ≡ false
      → is_retryable r.error_type r.error_message ≡ true
      → IsSpent task e (s.clock 0)
      → new.status ≡ dead
      → new.next_retry_at ≡ none
      → Outcome task r e s new
  refused :
      str_eq r.status "SUCCESS" ≡ false
      → is_retryable r.error_type r.error_message ≡ false
      → new.status ≡ failed
      → Outcome task r e s new

module _ (task : OpsTask) (e : OpsTaskExecution) (r : TaskResult) (s : Session)
    (found : Table.get e.id s.executions ≡ some e) where
  -- What the answer of `can_retry` says of the budget, and what it leaves of the session.
  abbrev Answer : Bool → Session → Type 0
  Answer b u =
      ((b ≡ true → HasBudget task e (s.clock 0)) × (b ≡ false → IsSpent task e (s.clock 0)))
      × (b ≡ true → u.clock 0 ≡ planned_at task s)
      × (u.executions ≡ s.executions)

  -- The outcome, and that the row is stored.
  abbrev Stored : OpsTaskExecution → Session → Type 0
  Stored new s' = Outcome task r e s new × (Table.get e.id s'.executions ≡ some new)
