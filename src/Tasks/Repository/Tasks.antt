-- ===== src/Tasks/Repository/Tasks.antt =====
-- `TaskRepository`
use ops_monitor.Common.{
  ℕ, String, Bool, ◌&&◌, ◌||◌, not, List, Option, none, some, str_eq, ◌==◌, any, filter, length,
  if◌then◌else◌,
}
use ops_monitor.Exceptions.{integrity_error}
use ops_monitor.Common.Action.{Action, ok, err}
use ops_monitor.Common.Table
use ops_monitor.Tasks.Model.{is_terminal, is_created, is_pending, OpsTask, task_entity}
use ops_monitor.Tasks.Session.{Session}
use ops_monitor.Tasks.Repository.Rows.{same_text, is_before}

-- The unique key on `idempotency_key`, where NULL equals nothing.
unfoldable pub create : (ℕ → OpsTask) → Action Session OpsTask
create instance_of s =
    let (t, tasks) = Table.create instance_of s.tasks in
    if any (λ r. same_text r.idempotency_key t.idempotency_key) s.tasks.rows
    then err integrity_error
    else ok (t, record s { tasks = tasks })

-- `status.in_(["PENDING", "CREATED"])`
unfoldable pub list_pending_cron : Session → List OpsTask
list_pending_cron s =
    filter (λ t. str_eq t.schedule_type "CRON" && (is_pending t.status || is_created t.status))
      s.tasks.rows

unfoldable pub get_by_idempotency_key : String → Session → Option OpsTask
get_by_idempotency_key key s =
    if str_eq key ""
    then none
    else Table.get_by (λ t. same_text t.idempotency_key (some key)) s.tasks

-- The single tasks that ended before the cutoff and have no executions left.
unfoldable pub is_finished_before : ℕ → Session → OpsTask → Bool
is_finished_before cutoff s t =
    str_eq t.schedule_type "ONCE"
    && is_terminal t.status
    && is_before t.finished_at cutoff
    && not (any (λ e. e.task_id == t.id) s.executions.rows)

unfoldable pub delete_finished_tasks_before : ℕ → Action Session ℕ
unfolding is_finished_before
delete_finished_tasks_before cutoff s =
    let tasks = filter (is_finished_before cutoff s) s.tasks.rows in
    let is_doomed = λ (k : ℕ). any (λ t. t.id == k) tasks in
    ok (
      length tasks,
      record s {
        targets = Table.delete_where (λ t. is_doomed t.task_id) s.targets;
        tasks = Table.delete_where (λ t. is_doomed t.id) s.tasks;
      },
    )
