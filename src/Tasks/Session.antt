-- ===== src/Tasks/Session.antt =====
-- The database session of the task service, and the readings of the clock still to come.
use ops_monitor.Common.{ℕ, suc, ◌*◌}
use ops_monitor.Common.Int.{ℤ}
use ops_monitor.Common.Action.{Action, ok}
use ops_monitor.Common.Table.{Table}
use ops_monitor.Servers.{OpsServer, OpsServerService}
use ops_monitor.Tasks.Model.{OpsTask, OpsTaskTarget, OpsTaskExecution, OpsTaskLog}

-- `elapsed_ms a b` is `int((b - a).total_seconds() * 1000)`, which goes through floats.
pub record Session : Type 0 where
  pub tasks : Table OpsTask
  pub targets : Table OpsTaskTarget
  pub executions : Table OpsTaskExecution
  pub logs : Table OpsTaskLog
  pub servers : Table OpsServer
  pub services : Table OpsServerService
  pub clock : ℕ → ℕ
  pub elapsed_ms : ℕ → ℕ → ℤ

-- `_utcnow()`: the next reading.
unfoldable pub utcnow : Action Session ℕ
utcnow s = ok (s.clock 0, record s { clock = λ n. s.clock (suc n) })

-- `timedelta(seconds=n)` and `timedelta(days=n)`
abbrev pub seconds : ℕ → ℕ
seconds n = n * 1000000

abbrev pub days : ℕ → ℕ
days n = n * 86400000000
