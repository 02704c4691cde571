-- ===== src/Tasks/Counts.antt =====
-- What the numbers that the scans return count.
use ops_monitor.Tasks.Repository.Rows.{save_task}
use ops_monitor.Common.Action.{pure}
use ops_monitor.Common.Table.Laws.{length-create, length-save}
use ops_monitor.Common.Int.{ℤ}
use ops_monitor.Common.Action.Post.{Post, Post-if}
use ops_monitor.Common.Action.Counts.{
  Stays, Counts, bind-Counts, sum_each-Counts, then-Counts, bind-Ends,
}
use ops_monitor.Tasks.Model.{
  OpsTaskExecution, OpsTask, LogContent, Status, LogLevel, Message, failed, is_terminal,
  execution_entity, attempt_created, info,
}
use ops_monitor.Common.{ℕ, length, String, arith, ◌≡◌, Option, ◌+◌, refl, none, if◌then◌else◌, suc}
use ops_monitor.Tasks.Service.Scans.{
  reset_target, next_attempt, exhaust, retry_one, dispatch_retries, retry_limit,
}
use ops_monitor.Tasks.Service.Status.{aggregate_task_status, get_task_entity, can_retry}
use ops_monitor.Tasks.Session.{Session, utcnow}
use ops_monitor.Tasks.Repository.Executions
use ops_monitor.Tasks.Repository.Logs

abbrev rows_of : Session → ℕ
rows_of s = length s.executions.rows

finish-Stays :
    (e : OpsTaskExecution) (status : Status) (exit_code : Option ℤ) (result_text : Option String)
    (message : Option Message) (error_type : Option String)
    → Stays rows_of (Executions.finish e status exit_code result_text message error_type)
unfolding Executions.finish utcnow
finish-Stays e status exit_code result_text message error_type s = length-save _ s.executions

mark_dead-Stays :
    (e : OpsTaskExecution) (t : String) (m : Option Message)
    → Stays rows_of (Executions.mark_dead e t m)
unfolding Executions.mark_dead utcnow
mark_dead-Stays e t m s = length-save _ s.executions

aggregate-Stays : (task : OpsTask) → Stays rows_of (aggregate_task_status task)
unfolding aggregate_task_status utcnow
aggregate-Stays task s = ground arith

get_task_entity-Stays : (k : ℕ) → Stays rows_of (get_task_entity k)
unfolding get_task_entity
get_task_entity-Stays k s = ground arith

can_retry-Stays : (task : OpsTask) (e : OpsTaskExecution) → Stays rows_of (can_retry task e)
unfolding can_retry utcnow
can_retry-Stays task e s = ground arith

reset_target-Stays : (k : ℕ) → Stays rows_of (reset_target k)
unfolding reset_target
reset_target-Stays k s = ground arith

record_log-Stays : (k : ℕ) (c : LogContent) (l : LogLevel) → Stays rows_of (Logs.record_log k c l)
unfolding Logs.record_log
record_log-Stays k c l s = refl

create_execution-adds :
    (task_id target_id server_id attempt : ℕ) (s : Session)
    → Post
        (λ _ s'. rows_of s' ≡ rows_of s + 1)
        (Executions.create_execution task_id target_id server_id attempt s)
unfolding Executions.create_execution
create_execution-adds task_id target_id server_id attempt s = ground (
  arith,
  length-create (Executions.new_execution task_id target_id server_id attempt) s.executions,
)

next_attempt-Counts : (task : OpsTask) (e : OpsTaskExecution) → Counts rows_of (next_attempt task e)
unfolding next_attempt
next_attempt-Counts task e =
    bind-Counts rows_of (Executions.finish e failed none none e.error_message e.error_type) _
      (finish-Stays e failed none none e.error_message e.error_type)
      (λ _.
        then-Counts rows_of
          (Executions.create_execution task.id e.target_id e.server_id (e.attempt + 1)) _ 1
          (create_execution-adds task.id e.target_id e.server_id (e.attempt + 1))
          (λ _.
            bind-Ends rows_of 1 (save_task (record task { attempt = e.attempt + 1 })) _ (λ _. refl)
              (λ _.
                bind-Ends rows_of 1 (reset_target e.target_id) _ (reset_target-Stays e.target_id)
                  (λ _.
                    bind-Ends rows_of 1
                      (Logs.record_log e.id (attempt_created (e.attempt + 1)) info) _
                      (record_log-Stays e.id _ _)
                      (λ _.
                        bind-Ends rows_of 1
                          (aggregate_task_status (record task { attempt = e.attempt + 1 }))
                          (λ _. pure 1) (aggregate-Stays (record task { attempt = e.attempt + 1 }))
                          (λ _ _. (refl, refl)))))))

exhaust-Counts : (task : OpsTask) (e : OpsTaskExecution) → Counts rows_of (exhaust task e)
unfolding exhaust
exhaust-Counts task e =
    bind-Counts rows_of (Executions.mark_dead e _ _) _ (mark_dead-Stays e _ _) (λ _.
      bind-Counts rows_of (Logs.record_log e.id _ _) _ (record_log-Stays e.id _ _) (λ _.
        bind-Counts rows_of (aggregate_task_status task) _ (aggregate-Stays task)
          (λ _ s. omega arith)))

retry_one-Counts : (e : OpsTaskExecution) → Counts rows_of (retry_one e)
unfolding retry_one
retry_one-Counts e =
    bind-Counts rows_of (get_task_entity e.task_id) _ (get_task_entity-Stays e.task_id) (λ task s.
      Post-if (λ n s'. rows_of s' ≡ rows_of s + n) (is_terminal task.status) _ _ s
        (λ _.
          bind-Counts rows_of (Executions.finish e failed none none e.error_message e.error_type)
            (λ _. pure 0) (finish-Stays e failed none none e.error_message e.error_type)
            (λ _ t. omega arith) s)
        (λ _.
          bind-Counts rows_of (can_retry task e)
            (λ budget. if budget then next_attempt task e else exhaust task e)
            (can_retry-Stays task e)
            (λ budget t.
              Post-if (λ n s'. rows_of s' ≡ rows_of t + n) budget (next_attempt task e)
                (exhaust task e) t (λ _. next_attempt-Counts task e t)
                (λ _. exhaust-Counts task e t))
            s))

-- The number that `dispatch_retries` returns, if it does not raise, is by how many rows the table
-- of executions has grown.
pub dispatch_retries-Counts :
    (s : Session)
    → Post (λ n s'. length s'.executions.rows ≡ length s.executions.rows + n) (dispatch_retries s)
unfolding dispatch_retries utcnow Executions.list_due_retries
dispatch_retries-Counts s =
    sum_each-Counts rows_of retry_one retry_one-Counts
      (Executions.list_due_retries (s.clock 0) retry_limit s)
      (record s { clock = λ n. s.clock (suc n) })
