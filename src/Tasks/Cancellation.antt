-- ===== src/Tasks/Cancellation.antt =====
-- What `cancel_task` leaves of a task that has no executions.
use ops_monitor.Common.Table.Laws.{id-get}
use ops_monitor.Exceptions.{app, task_not_found, bad_request}
use ops_monitor.Common.Table
use ops_monitor.Tasks.Model.{pending, is_terminal, task_entity}
use ops_monitor.Common.Action.Post.{Post, Post-continue, Post-or_raise, Post-raise_if}
use ops_monitor.Common.{ℕ, ◌≡◌, [], refl}
use ops_monitor.Tasks.Aggregate.{aggregate_status}
use ops_monitor.Common.Action.{for_each, or_raise}
use ops_monitor.Tasks.Session.{utcnow, Session}
use ops_monitor.Tasks.Service.Status.{get_task_entity, aggregate_task_status}
use ops_monitor.Tasks.Service.Creation.{cancel_task}
use ops_monitor.Tasks.Repository.Executions

-- A task that has no executions and has not ended, a CRON task that has not fired, is PENDING after
-- it is cancelled, not CANCELLED: in every branch the task that is returned has the status PENDING.
pub cancel_without_executions :
    (task_id : ℕ) (s : Session)
    → Executions.list_by_task task_id s ≡ []
    → Post (λ task _. task.status ≡ pending) (cancel_task task_id s)
unfolding cancel_task get_task_entity for_each aggregate_task_status aggregate_status utcnow
cancel_without_executions task_id s q =
    Post-continue (λ task t. (t ≡ s) × (task.id ≡ task_id)) (λ task _. task.status ≡ pending)
      (or_raise (Table.get task_id s.tasks) (app task_not_found) s) _
      (Post-or_raise (λ task t. (t ≡ s) × (task.id ≡ task_id)) (Table.get task_id s.tasks)
        (app task_not_found) s (λ task g. (refl, id-get task_id s.tasks g)))
      (λ task t h. rw (h.0) (
        Post-raise_if (λ task' _. task'.status ≡ pending) (is_terminal task.status)
          (app bad_request) _ s (λ _. rw (h.1, q) (rw q refl))))
