-- ===== src/Tasks/Tests.antt =====
-- The theorems on tasks at concrete requests and tables.
use ops_monitor.Servers.Examples.{web}
use ops_monitor.Tasks.Outcome.{Outcome}
use ops_monitor.Common.Table.Pages.{pages, pages_cover}
use ops_monitor.Tasks.HandOut.{fetch_pending-once}
use ops_monitor.Tasks.Model.{task_entity, execution_entity}
use ops_monitor.Tasks.Cancellation.{cancel_without_executions}
use ops_monitor.Tasks.Counts.{dispatch_retries-Counts}
use ops_monitor.Tasks.Idempotency.{create_task_again}
use ops_monitor.Tasks.Service.Scans.{dispatch_retries}
use ops_monitor.Common.Action.{ok}
use ops_monitor.Tasks.Aggregate.Current.{aggregate_status-current}
use ops_monitor.Tasks.History.Runs.{serve_keeps_ended}
use ops_monitor.Common.Int.{pos}
use ops_monitor.Tasks.Requests.{
  Request, serve, create, dispatch, fetch, report, cancel, scan, fire_cron,
}
use ops_monitor.Common.Table.{Table}
use ops_monitor.Tasks.Aggregate.{aggregate_status, status_of_latest}
use ops_monitor.Common.Action.Post.{Post}
use ops_monitor.Common.Table.Laws.{IsTable, Has}
use ops_monitor.Common.{
  none, ℕ, String, List, some, ◌∷◌, Option, arith, ◌≡◌, map, length, [], ◌+◌, take, inl, filter,
  refl, All, true, ◌≢◌,
}
use ops_monitor.Tasks.Session.{Session}
use ops_monitor.Tasks.Model.{
  OpsTask, OpsTaskExecution, failed, retrying, running, created, pending, execution_entity,
}
use ops_monitor.Servers.{OpsServerService}
use ops_monitor.Common.Table
use ops_monitor.Tasks.Repository.Executions
use ops_monitor.Tasks.Service.Creation.{TaskCreate, create_task, cancel_task}
use ops_monitor.Tasks.Service.Dispatch.{TaskResult, fetch_pending}

abbrev nginx : OpsServerService
nginx = record {
  id = 1;
  server_id = 1;
  service_name = "nginx";
  display_name = none;
  service_type = "SYSTEMD";
  is_whitelisted = 1;
  is_critical = 0;
  current_status = some "RUNNING";
  last_checked_at = none;
  status = 1;
}

abbrev check : OpsTask
check = record {
  id = 1;
  task_name = "check nginx";
  task_type = "SERVICE_CHECK";
  action = "STATUS";
  service_name = some "nginx";
  schedule_type = "ONCE";
  cron_expression = none;
  status = running;
  created_by = 7;
  started_at = some 10;
  finished_at = none;
  timeout_seconds = 60;
  max_attempts = 3;
  attempt = 0;
  deadline_at = some 180000000;
  idempotency_key = some "k1";
  confirmation_required = 0;
  confirmed_by = none;
  confirmed_at = none;
  created_at = some 5;
}

-- A CRON task that has not fired.
abbrev nightly : OpsTask
nightly = record check {
  id = 2;
  schedule_type = "CRON";
  cron_expression = some "0 3 * * *";
  status = created;
  idempotency_key = none;
}

abbrev first_try : OpsTaskExecution
first_try = record (Executions.new_execution 1 1 1 1 1) {
  status = failed;
  error_type = some "NETWORK_ERROR";
  finished_at = some 20;
}

abbrev second_try : OpsTaskExecution
second_try = record (Executions.new_execution 1 1 1 2 2) {
  status = retrying;
  error_type = some "NETWORK_ERROR";
  next_retry_at = some 40;
}

abbrev waiting : OpsTaskExecution
waiting = Executions.new_execution 1 2 1 1 3

abbrev shop : Session
shop = record {
  tasks = record { rows = check ∷ nightly ∷ []; next_id = 3 };
  targets = record {
    rows = record { id = 1; task_id = 1; server_id = 1; target_status = pending } ∷ [];
    next_id = 2;
  };
  executions = record { rows = first_try ∷ second_try ∷ waiting ∷ []; next_id = 4 };
  logs = Table.empty;
  servers = record { rows = web ∷ []; next_id = 2 };
  services = record { rows = nginx ∷ []; next_id = 2 };
  clock = λ n. n + 100;
  elapsed_ms = λ a b. pos 10;
}

abbrev order : TaskCreate
order = record {
  task_name = "check nginx";
  task_type = "SERVICE_CHECK";
  action = none;
  service_name = some "nginx";
  server_ids = 1 ∷ [];
  schedule_type = "ONCE";
  cron_expression = none;
  timeout_seconds = 60;
  max_attempts = 3;
  confirmation_required = none;
}

abbrev success_of : ℕ → TaskResult
success_of k = record {
  execution_id = k;
  status = "SUCCESS";
  exit_code = some (pos 0);
  result_text = some "active";
  error_message = none;
  error_type = none;
  logs = none;
}

abbrev never : String → ℕ → Option ℕ
never expression base = none

abbrev day : List ((ℕ → ℕ) × Request)
day =
    (λ n. n + 100, create order 7 (some "k2"))
    ∷ (λ n. n + 200, dispatch)
    ∷ (λ n. n + 300, fetch web)
    ∷ (λ n. n + 400, report web (success_of 1))
    ∷ (λ n. n + 500, report web (success_of 2))
    ∷ (λ n. n + 600, cancel 1)
    ∷ (λ n. n + 700, scan)
    ∷ (λ n. n + 800, fire_cron)
    ∷ []

executions-IsTable : IsTable shop.executions
executions-IsTable = record {
  below = (omega arith, (omega arith, (omega arith, tt)));
  distinct = ((omega arith, (omega arith, tt)), ((omega arith, tt), (tt, tt)));
}

serve_keeps_ended_example : Has first_try (serve never day shop).executions.rows
serve_keeps_ended_example =
    serve_keeps_ended never day shop first_try executions-IsTable (inl refl) refl

create_task_again_example :
    Post
      (λ task s'.
        (t : Session)
        → t.tasks ≡ s'.tasks
        → create_task (record order { max_attempts = 5 }) 8 (some "k2") t ≡ ok (task, t))
      (create_task order 7 (some "k2") shop)
create_task_again_example =
    create_task_again order (record order { max_attempts = 5 }) 7 8 "k2" shop refl

fetch_pending-once_example :
    Post
      (λ ps s'.
        (map (λ p. p.execution_id) ps
          ≡ map
              (λ e. e.id)
              (take 10 (filter (Executions.is_claimable shop 1) shop.executions.rows)))
        × All
            (λ p.
              (k : ℕ)
              → All
                  (λ e. Executions.is_claimable s' k e ≡ true → e.id ≢ p.execution_id)
                  s'.executions.rows)
            ps)
      (fetch_pending web shop)
fetch_pending-once_example = fetch_pending-once web shop

aggregate_status-current_example : aggregate_status shop.executions.rows ≡ retrying
unfolding status_of_latest
aggregate_status-current_example =
    aggregate_status-current first_try (second_try ∷ waiting ∷ [])
      ((refl, (refl, tt)), ((refl, tt), (tt, tt)))

dispatch_retries-Counts_example :
    Post (λ n s'. length s'.executions.rows ≡ 3 + n) (dispatch_retries shop)
dispatch_retries-Counts_example = dispatch_retries-Counts shop

cancel_without_executions_example : Post (λ task _. task.status ≡ pending) (cancel_task 2 shop)
unfolding Executions.list_by_task Table.list_all
cancel_without_executions_example = cancel_without_executions 2 shop refl

abbrev failure_of : ℕ → TaskResult
failure_of k = record (success_of k) { status = "FAILED"; error_type = some "NETWORK_ERROR" }

pages_cover_example : pages (λ xs. xs) 2 (λ _. true) shop.executions 2 ≡ shop.executions.rows
unfolding Table.list_page
pages_cover_example = pages_cover (λ xs. xs) 2 (λ _. true) shop.executions 2 1 refl (omega arith)
