-- ===== src/Tasks/Repository/Executions.antt =====
-- `TaskExecutionRepository`
use ops_monitor.Common.{
  ℕ, ◌+◌, String, Bool, true, false, ◌&&◌, ◌||◌, List, Option, none, some, ltb, leb, ◌==◌, or_else,
  any, filter, take, length, sort_by, if◌then◌else◌,
}
use ops_monitor.Exceptions.{integrity_error}
use ops_monitor.Common.Int.{ℤ}
use ops_monitor.Common.Action.{Action, ok, pure, gets, map_each, ◌>>=◌, err}
use ops_monitor.Common.Table
use ops_monitor.Tasks.Model.{
  Status, pending, running, timeout, retrying, dead, is_terminal, is_pending, is_running,
  is_retrying, Message, timed_out, OpsTaskTarget, OpsTaskExecution, execution_entity,
}
use ops_monitor.Tasks.Session.{Session, utcnow, seconds}
use ops_monitor.Tasks.Repository.Rows.{save_execution, is_before}

-- The unique key on (task_id, target_id, attempt).
abbrev pub same_attempt : ℕ → ℕ → ℕ → OpsTaskExecution → Bool
same_attempt task_id target_id attempt e =
    e.task_id == task_id && e.target_id == target_id && e.attempt == attempt

-- The columns of a new row, with the defaults of the model.
abbrev pub new_execution : (task_id target_id server_id attempt : ℕ) → ℕ → OpsTaskExecution
new_execution task_id target_id server_id attempt k = record {
  id = k;
  task_id = task_id;
  target_id = target_id;
  server_id = server_id;
  status = pending;
  attempt = attempt;
  next_retry_at = none;
  error_type = none;
  exit_code = none;
  result_text = none;
  error_message = none;
  started_at = none;
  finished_at = none;
  duration_ms = none;
}

unfoldable pub create_execution :
    (task_id target_id server_id attempt : ℕ) → Action Session OpsTaskExecution
create_execution task_id target_id server_id attempt s =
    let (e, executions) =
      Table.create (new_execution task_id target_id server_id attempt) s.executions in
    if any (same_attempt task_id target_id attempt) s.executions.rows
    then err integrity_error
    else ok (e, record s { executions = executions })

unfoldable pub create_executions : ℕ → List OpsTaskTarget → Action Session (List OpsTaskExecution)
unfolding create_execution
create_executions task_id targets =
    map_each targets (λ t. create_execution task_id t.id t.server_id 1)

abbrev pub retry_time : OpsTaskExecution → ℕ
retry_time e = or_else e.next_retry_at 0

abbrev pub is_due : ℕ → Option ℕ → Bool
is_due now none = false
is_due now (some t) = leb t now

unfoldable pub list_due_retries : ℕ → ℕ → Session → List OpsTaskExecution
list_due_retries now limit s = take limit (
    sort_by retry_time
      (filter (λ e. is_retrying e.status && is_due now e.next_retry_at) s.executions.rows))

-- The join with the task: an execution whose task is PENDING or RUNNING.
unfoldable pub is_claimable : Session → ℕ → OpsTaskExecution → Bool
is_claimable s server_id e =
    e.server_id == server_id
    && is_pending e.status
    && any (λ t. t.id == e.task_id && (is_pending t.status || is_running t.status)) s.tasks.rows

unfoldable pub fetch_pending_by_server : ℕ → ℕ → Session → List OpsTaskExecution
unfolding is_claimable
fetch_pending_by_server server_id limit s =
    take limit (filter (is_claimable s server_id) s.executions.rows)

unfoldable pub mark_running : OpsTaskExecution → Action Session OpsTaskExecution
unfolding utcnow
mark_running e = do
  now ← utcnow
  save_execution (record e { status = running; started_at = some now })

-- The duration since `started_at`, where that is set.
abbrev pub duration : (ℕ → ℕ → ℤ) → OpsTaskExecution → ℕ → Option ℤ
duration elapsed_ms e finished_at = elim e.started_at [
  | none ↦ e.duration_ms
  | some started_at ↦ some (elapsed_ms started_at finished_at)
]

-- `error_type` is written only if it is given.
unfoldable pub finish :
    OpsTaskExecution
    → Status
    → (exit_code : Option ℤ) → (result_text : Option String) → (error_message : Option Message)
    → (error_type : Option String) → Action Session OpsTaskExecution
unfolding utcnow
finish e status exit_code result_text error_message error_type = do
  now ← utcnow
  elapsed_ms ← gets (λ s. s.elapsed_ms)
  save_execution (record e {
    status = status;
    exit_code = exit_code;
    result_text = result_text;
    error_message = error_message;
    error_type = elim error_type [ none ↦ e.error_type | some t ↦ some t ];
    finished_at = some now;
    duration_ms = duration elapsed_ms e now;
  })

unfoldable pub mark_retrying :
    OpsTaskExecution
    → (error_type : String) → (error_message : Option Message) → (next_retry_at : ℕ)
    → Action Session OpsTaskExecution
unfolding utcnow
mark_retrying e error_type error_message next_retry_at = do
  now ← utcnow
  elapsed_ms ← gets (λ s. s.elapsed_ms)
  save_execution (record e {
    status = retrying;
    error_type = some error_type;
    error_message = error_message;
    next_retry_at = some next_retry_at;
    finished_at = some now;
    duration_ms = duration elapsed_ms e now;
  })

unfoldable pub mark_dead :
    OpsTaskExecution
    → (error_type : String) → (error_message : Option Message) → Action Session OpsTaskExecution
unfolding utcnow
mark_dead e error_type error_message = do
  now ← utcnow
  elapsed_ms ← gets (λ s. s.elapsed_ms)
  save_execution (record e {
    status = dead;
    error_type = some error_type;
    error_message = error_message;
    next_retry_at = none;
    finished_at = some now;
    duration_ms = duration elapsed_ms e now;
  })

unfoldable pub list_by_task : ℕ → Session → List OpsTaskExecution
list_by_task task_id s = Table.list_all (λ e. e.task_id == task_id) s.executions

-- The executions that ended before the cutoff, with their logs.
unfoldable pub delete_terminal_before : ℕ → Action Session ℕ
delete_terminal_before cutoff s =
    let is_old = λ (e : OpsTaskExecution). is_terminal e.status && is_before e.finished_at cutoff in
    let old = filter is_old s.executions.rows in
    let is_doomed = λ (k : ℕ). any (λ e. e.id == k) old in
    ok (
      length old,
      record s {
        logs = Table.delete_where (λ l. is_doomed l.execution_id) s.logs;
        executions = Table.delete_where (λ e. is_doomed e.id) s.executions;
      },
    )

-- `started_at < _utcnow() - timedelta(seconds=timeout_seconds)`
abbrev pub ran_out : ℕ → ℕ → OpsTaskExecution → Bool
ran_out now timeout_seconds e =
    is_running e.status
    && elim e.started_at [ none ↦ false | some t ↦ ltb (t + seconds timeout_seconds) now ]

unfoldable pub is_expired : ℕ → OpsTaskExecution → Action Session Bool
unfolding utcnow
is_expired timeout_seconds e =
    if is_running e.status && elim e.started_at [ none ↦ false | some _ ↦ true ]
    then (do now ← utcnow; pure (ran_out now timeout_seconds e))
    else pure false

unfoldable pub mark_timeout : OpsTaskExecution → ℕ → Action Session OpsTaskExecution
unfolding utcnow
mark_timeout e timeout_seconds = do
  now ← utcnow
  save_execution (record e {
    status = timeout;
    finished_at = some now;
    error_message = some (timed_out timeout_seconds);
  })
