-- ===== src/Agents/Session.antt =====
-- What the authentication reads and writes: the tables of tokens and servers, the cache, the clock,
-- and the settings of backend/app/core/config.py.
use ops_monitor.Servers.{OpsServer}
use ops_monitor.Agents.Model.{OpsAgentToken}
use ops_monitor.Common.Action.{Action, ok}
use ops_monitor.Common.Table.{Table}
use ops_monitor.Common.{Bool, ℕ, suc}

pub record Settings : Type 0 where
  pub agent_require_signature : Bool
  pub agent_signature_max_skew : ℕ

pub record Session (Cache : Type 0) : Type 0 where
  pub tokens : Table OpsAgentToken
  pub servers : Table OpsServer
  pub cache : Cache
  pub clock : ℕ → ℕ

-- The next reading of the clock, in microseconds since the epoch.
unfoldable pub read_clock : {Cache : Type 0} → Action (Session Cache) ℕ
read_clock s = ok (s.clock 0, record s { clock = λ n. s.clock (suc n) })
