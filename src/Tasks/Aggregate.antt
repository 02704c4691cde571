-- ===== src/Tasks/Aggregate.antt =====
-- The pure part of `_aggregate_task_status` in backend/app/services/task_service.py: the status of
-- a task from the latest attempt of each of its targets.
pub mod Latest
pub mod Current
use ops_monitor.Common.{Bool, ◌||◌, List, [], ◌∷◌, ltb, ◌==◌, any, all, if◌then◌else◌}
use ops_monitor.Tasks.Model.{
  Status, pending, running, success, failed, cancelled, retrying, dead, is_pending, is_running,
  is_success, is_cancelled, is_retrying, is_dead, is_failed_or_timeout, OpsTaskExecution,
}

-- The dictionary `latest` by its values: each carries its key, `target_id`. An execution takes the
-- place of the one of its target if its attempt is greater.
unfoldable pub update_latest : OpsTaskExecution → List OpsTaskExecution → List OpsTaskExecution
update_latest e [] = e ∷ []
update_latest e (x ∷ latest) =
    let rest = update_latest e latest in
    if x.target_id == e.target_id
    then (if ltb x.attempt e.attempt then e else x) ∷ latest
    else x ∷ rest

-- The loop that fills `latest`.
unfoldable pub latest_from : List OpsTaskExecution → List OpsTaskExecution → List OpsTaskExecution
unfolding update_latest
latest_from latest [] = latest
latest_from latest (e ∷ executions) = latest_from (update_latest e latest) executions

unfoldable pub latest_of : List OpsTaskExecution → List OpsTaskExecution
unfolding latest_from
latest_of executions = latest_from [] executions

-- `any(p(s) for s in statuses)` and `all(…)`, over the set of the statuses of `latest`.
abbrev pub any_status : (Status → Bool) → List OpsTaskExecution → Bool
any_status p = any (λ e. p e.status)

abbrev pub all_status : (Status → Bool) → List OpsTaskExecution → Bool
all_status p = all (λ e. p e.status)

-- The ladder of tests on `statuses`.
unfoldable pub status_of_latest : List OpsTaskExecution → Status
status_of_latest latest =
    if any_status is_retrying latest
    then retrying
    else if any_status (λ s. is_pending s || is_running s) latest
    then running
    else if any_status is_dead latest
    then dead
    else if any_status is_failed_or_timeout latest
    then failed
    else if all_status is_success latest
    then success
    else if all_status is_cancelled latest
    then cancelled
    else if any_status is_success latest
    then success
    else failed

-- A task without executions is set to PENDING.
unfoldable pub aggregate_status : List OpsTaskExecution → Status
unfolding latest_of status_of_latest
aggregate_status [] = pending
aggregate_status (e ∷ executions) = status_of_latest (latest_of (e ∷ executions))
