-- ===== src/Protocol/Session.antt =====
-- The database session of the agent service: what the authentication of agents keeps, and the tables
-- that the reports of the agents fill.
use ops_monitor.Agents.Session.{read_clock, Session as AgentSession}
use ops_monitor.Alerts.Model.{MonitorServerMetric}
use ops_monitor.Common.Action.{Action, Result, ok, err}
use ops_monitor.Common.Table.{Table}
use ops_monitor.Common.{ℕ}
use ops_monitor.Protocol.Model.{OpsServerDisk, OpsServerNetwork, OpsAgentHeartbeat}
use ops_monitor.Servers.{OpsServerService}

pub record Session (Cache : Type 0) : Type 0 where
  pub agents : AgentSession Cache
  pub heartbeats : Table OpsAgentHeartbeat
  pub metrics : Table MonitorServerMetric
  pub disks : Table OpsServerDisk
  pub networks : Table OpsServerNetwork
  pub services : Table OpsServerService

module _ {Cache A : Type 0} where
  abbrev pub with_agents :
      Session Cache → Result (A × AgentSession Cache) → Result (A × Session Cache)
  with_agents s (ok (a, agents)) = ok (a, record s { agents = agents })
  with_agents s (err e) = err e

  -- An action of the authentication, in the session that both share.
  abbrev pub on_agents : Action (AgentSession Cache) A → Action (Session Cache) A
  on_agents m s = with_agents s (m s.agents)

-- `_utcnow()`: the next reading of the clock.
unfoldable pub utcnow : {Cache : Type 0} → Action (Session Cache) ℕ
unfolding read_clock
utcnow = on_agents read_clock
