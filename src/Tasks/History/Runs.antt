-- ===== src/Tasks/History/Runs.antt =====
-- A run of requests over executions that have ended.
use ops_monitor.Tasks.Service.Scans.{scan_timeouts, dispatch_retries, fire_due_cron}
use ops_monitor.Tasks.History.Rules.{report_result-Keeps}
use ops_monitor.Tasks.Service.Dispatch.{fetch_pending, report_result}
use ops_monitor.Tasks.History.Operations.{
  cancel_task-Keeps, fetch_pending-Keeps, scan_timeouts-Keeps, dispatch_retries-Keeps,
}
use ops_monitor.Tasks.History.Creation.{create_task-Keeps, confirm_task-Keeps, fire_due_cron-Keeps}
use ops_monitor.Tasks.Service.Creation.{create_task, confirm_task, cancel_task}
use ops_monitor.Common.Table.Laws.{IsTable, Has}
use ops_monitor.Common.Action.Post.{Post}
use ops_monitor.Tasks.History.Writes.{History}
use ops_monitor.Common.Action.{Result, ok, err, settle}
use ops_monitor.Tasks.Session.{Session}
use ops_monitor.Common.{String, ℕ, ◌≡◌, Option, true, List, ◌∷◌, []}
use ops_monitor.Tasks.Model.{OpsTaskExecution, is_terminal, execution_entity}
use ops_monitor.Tasks.Requests.{
  handle, serve, Request, create, confirm, cancel, fetch, report, scan, dispatch, fire_cron,
}

module _ (e : OpsTaskExecution) where
  settle-History :
      {A : Type 0} (s : Session) (r : Result (A × Session))
      → History e s
      → Post (λ _ s'. History e s') r
      → History e (settle s r)
  settle-History s (ok (a, s')) h p = p
  settle-History s (err x) h p = h

  module _ (done : is_terminal e.status ≡ true) (cron_next : String → ℕ → Option ℕ) where
    handle-History : (r : Request) (s : Session) → History e s → History e (handle cron_next r s)
    unfolding handle
    handle-History (create d u key) s h =
        settle-History s (create_task d u key s) h (create_task-Keeps e d u key s h)
    handle-History (confirm k u) s h =
        settle-History s (confirm_task k u s) h (confirm_task-Keeps e k u s h)
    handle-History (cancel k) s h =
        settle-History s (cancel_task k s) h (cancel_task-Keeps e done k s h)
    handle-History (fetch v) s h =
        settle-History s (fetch_pending v s) h (fetch_pending-Keeps e done v s h)
    handle-History (report v r) s h =
        settle-History s (report_result v r s) h (report_result-Keeps e done v r s h)
    handle-History scan s h = settle-History s (scan_timeouts s) h (scan_timeouts-Keeps e done s h)
    handle-History dispatch s h =
        settle-History s (dispatch_retries s) h (dispatch_retries-Keeps e done s h)
    handle-History fire_cron s h =
        settle-History s (fire_due_cron cron_next s) h (fire_due_cron-Keeps e cron_next s h)

    serve-History :
        (rs : List ((ℕ → ℕ) × Request)) (s : Session)
        → History e s
        → History e (serve cron_next rs s)
    unfolding serve
    serve-History [] s h = h
    serve-History ((c, r) ∷ rs) s h =
        serve-History rs _ (handle-History r (record s { clock = c }) h)

-- Whatever requests and scans the service handles, at whatever times, a row of the execution table
-- that had ended (SUCCESS, FAILED, TIMEOUT, CANCELLED or DEAD) is still there, unchanged in every
-- column. The keys of the table at the start are distinct and below the next one. The cleanup of
-- old rows is not among the requests.
pub serve_keeps_ended :
    (cron_next : String → ℕ → Option ℕ) (requests : List ((ℕ → ℕ) × Request)) (s : Session)
    (e : OpsTaskExecution)
    → IsTable s.executions
    → Has e s.executions.rows
    → is_terminal e.status ≡ true
    → Has e (serve cron_next requests s).executions.rows
serve_keeps_ended cron_next requests s e valid row done =
    (serve-History e done cron_next requests s (valid, row)).1
