-- ===== src/Tasks/Requests.antt =====
-- The calls of `TaskService` that the API and the scheduler make, one after another: each runs in a
-- session of its own, and what it did is rolled back if it raises.
use ops_monitor.Tasks.Service.Scans.{scan_timeouts, dispatch_retries, fire_due_cron}
use ops_monitor.Tasks.Service.Dispatch.{TaskResult, fetch_pending, report_result}
use ops_monitor.Servers.{OpsServer}
use ops_monitor.Common.{String, ℕ, Option, List, ◌∷◌, []}
use ops_monitor.Tasks.Session.{Session}
use ops_monitor.Tasks.Service.Creation.{TaskCreate, create_task, confirm_task, cancel_task}
use ops_monitor.Common.Action.{settle}

pub data Request : Type 0 where
  create : TaskCreate → (creator_id : ℕ) → (idempotency_key : Option String) → Request
  confirm : (task_id operator_id : ℕ) → Request
  cancel : (task_id : ℕ) → Request
  fetch : OpsServer → Request
  report : OpsServer → TaskResult → Request
  scan dispatch fire_cron : Request

module _ (cron_next : String → ℕ → Option ℕ) where
  unfoldable pub handle : Request → Session → Session
  handle (create data_in creator_id key) s = settle s (create_task data_in creator_id key s)
  handle (confirm task_id operator_id) s = settle s (confirm_task task_id operator_id s)
  handle (cancel task_id) s = settle s (cancel_task task_id s)
  handle (fetch server) s = settle s (fetch_pending server s)
  handle (report server result) s = settle s (report_result server result s)
  handle scan s = settle s (scan_timeouts s)
  handle dispatch s = settle s (dispatch_retries s)
  handle fire_cron s = settle s (fire_due_cron cron_next s)

  -- Each request brings the readings of the clock that it makes.
  unfoldable pub serve : List ((ℕ → ℕ) × Request) → Session → Session
  unfolding handle
  serve [] s = s
  serve ((clock, request) ∷ rest) s = serve rest (handle request (record s { clock = clock }))
