-- ===== src/Tasks/Repository/Logs.antt =====
-- `TaskLogRepository`
use ops_monitor.Common.{ℕ}
use ops_monitor.Common.Action.{Action, modify}
use ops_monitor.Common.Table
use ops_monitor.Tasks.Model.{LogLevel, LogContent, log_entity}
use ops_monitor.Tasks.Session.{Session}

unfoldable pub record_log : ℕ → LogContent → LogLevel → Action Session (Unit {0})
record_log execution_id content level = modify (λ s.
    let (_, logs) =
      Table.create
        (λ k. record {
          id = k;
          execution_id = execution_id;
          log_level = level;
          log_content = content;
        })
        s.logs in
    record s { logs = logs })
