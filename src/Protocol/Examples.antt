-- ===== src/Protocol/Examples.antt =====
-- A session of the agent service for the tests.
use ops_monitor.Common.Table
use ops_monitor.Agents.Session.{Session as AgentSession}
use ops_monitor.Protocol.Session.{Session}

-- Before any report.
abbrev pub blank : {Cache : Type 0} → AgentSession Cache → Session Cache
blank agents = record {
  agents = agents;
  heartbeats = Table.empty;
  metrics = Table.empty;
  disks = Table.empty;
  networks = Table.empty;
  services = Table.empty;
}
