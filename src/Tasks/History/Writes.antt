-- ===== src/Tasks/History/Writes.antt =====
-- What the parts of the operations do to the row of an execution that has ended.
use ops_monitor.Common.Action.Post.{Post}
use ops_monitor.Common.Table.Laws.{
  IsTable, save-IsTable, Has, Has-save, create-IsTable, Has-create, others_of_Has,
}
use ops_monitor.Common.{◌≢◌, ℕ, ◌≡◌, true, All, false, arith, refl}
use ops_monitor.Tasks.Session.{Session}
use ops_monitor.Common.Table.{Table}
use ops_monitor.Tasks.Service.Status.{aggregate_task_status, can_retry}
use ops_monitor.Tasks.Model.{OpsTaskExecution, OpsTask, is_terminal, execution_entity}
use ops_monitor.Common.Table
use ops_monitor.Tasks.Repository.Executions

module _ (e : OpsTaskExecution) where
  -- The table of executions is well formed and holds the row `e`.
  abbrev pub Holds : Table OpsTaskExecution → Type 0
  Holds t = IsTable t × Has e t.rows

  abbrev pub History : Session → Type 0
  History s = Holds s.executions

  abbrev pub Other : OpsTaskExecution → Type 0
  Other x = x.id ≢ e.id

  pub save-Holds :
      (x : OpsTaskExecution) (t : Table OpsTaskExecution)
      → Other x
      → Holds t
      → Holds (Table.save x t)
  save-Holds x t ne h = (save-IsTable x t h.0, Has-save e x t ne h.1)

  pub create_execution-History :
      (task_id target_id server_id attempt : ℕ) (s : Session)
      → History s
      → Post
          (λ _ s'. History s')
          (Executions.create_execution task_id target_id server_id attempt s)
  unfolding Executions.create_execution
  create_execution-History task_id target_id server_id attempt s h =
      let f = Executions.new_execution task_id target_id server_id attempt in
      ground (arith, create-IsTable f s.executions refl h.0, Has-create e f s.executions h.1)

  -- Rows that have not ended are other rows.
  pub open-Other :
      (t : Table OpsTaskExecution)
      → is_terminal e.status ≡ true
      → Holds t
      → All (λ x. is_terminal x.status ≡ false → Other x) t.rows
  open-Other t done h = others_of_Has (λ x. is_terminal x.status) e t.rows h.0.distinct h.1 done

-- The task's status is written; the executions are not.
pub aggregate_task_status-executions :
    (task : OpsTask) (s : Session)
    → Post (λ _ s'. s'.executions ≡ s.executions) (aggregate_task_status task s)
unfolding aggregate_task_status
aggregate_task_status-executions task s = ground arith

pub can_retry-executions :
    (task : OpsTask) (x : OpsTaskExecution) (s : Session)
    → Post (λ _ s'. s'.executions ≡ s.executions) (can_retry task x s)
unfolding can_retry
can_retry-executions task x s = ground arith
