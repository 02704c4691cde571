-- ===== src/Client/Worker.antt =====
-- agent/worker.py: `TaskWorker`, with `report_task_result` of agent/reporter/report.py.
pub mod Reports
use ops_monitor.Client.Errors.{classify_failure, classify_validation_error, unknown}
use ops_monitor.Client.Executor.{
  Executed, Shell, returned, fetch_logs, run_action, invalid, failed_with,
}
use ops_monitor.Common.{
  ℕ, Bool, String, Option, str_eq, none, List, some, if◌then◌else◌, ◌∷◌, ◌+◌, [], true, false,
}
use ops_monitor.Tasks.Service.Dispatch.{PendingTask}

-- The payload of a report.
pub record TaskReport : Type 0 where
  pub execution_id : ℕ
  pub status : String
  pub result_text : Option String
  pub error_message : Option String
  pub error_type : Option String
  pub logs : Option String

abbrev pub is_logs : PendingTask → Bool
is_logs task = str_eq task.action "LOGS"

abbrev pub failed_report : PendingTask → (error_message error_type : String) → TaskReport
failed_report task error_message error_type = record {
  execution_id = task.execution_id;
  status = "FAILED";
  result_text = none;
  error_message = some error_message;
  error_type = some error_type;
  logs = none;
}

-- The report of `_execute_one`, by what the executor returned or raised.
unfoldable pub report_of : PendingTask → Executed → TaskReport
report_of task (returned true output) = record {
  execution_id = task.execution_id;
  status = "SUCCESS";
  result_text = some output;
  error_message = none;
  error_type = none;
  logs = if is_logs task then some output else none;
}
report_of task (returned false output) = failed_report task output (classify_failure (some output))
report_of task (invalid text) = failed_report task text (classify_validation_error text)
report_of task (failed_with text) = failed_report task text unknown

-- `report` is the post of a report by the client; false is that it raises.
module _ {World : Type 0} (shell : Shell World) (allowed : List String)
    (report : TaskReport → World → Bool × World) where
  unfoldable pub perform : PendingTask → World → Executed × World
  perform task w =
      if is_logs task
      then fetch_logs shell allowed task.service_name w
      else run_action shell allowed task.service_name (some task.action) task.timeout_seconds w

  unfoldable pub execute_one : PendingTask → World → Bool × World
  unfolding perform report_of
  execute_one task w = let done = perform task w in report (report_of task done.0) done.1

  -- The loop of `poll_once` over the tasks that it fetched: the number that were processed.
  unfoldable pub execute_all : List PendingTask → World → ℕ × World
  unfolding execute_one
  execute_all [] w = (0, w)
  execute_all (task ∷ rest) w =
      let done = execute_one task w in
      let later = execute_all rest done.1 in ((if done.0 then 1 else 0) + later.0, later.1)
