-- ===== src/Alerts/Requests.antt =====
-- The rounds of the engine and the calls of the service, one after another: each runs in a session
-- of its own, and what it did is rolled back if it raises.
use ops_monitor.Alerts.Model.{MonitorServerMetric, AlertRule}
use ops_monitor.Servers.{OpsServer}
use ops_monitor.Common.Table.{Table}
use ops_monitor.Common.Action.{settle}
use ops_monitor.Alerts.Session.{Session}
use ops_monitor.Common.{ℕ, List, Option, ◌∷◌, []}
use ops_monitor.Alerts.Engine
use ops_monitor.Alerts.Service

pub data Request : Type 0 where
  evaluate : Request
  acknowledge resolve : (event_id : ℕ) → (operator_id : Option ℕ) → Request
  delete_rule : (rule_id : ℕ) → Request

unfoldable pub handle : Request → Session → Session
handle evaluate s = settle s (Engine.evaluate_all s)
handle (acknowledge event_id operator_id) s = settle s (Service.acknowledge event_id operator_id s)
handle (resolve event_id operator_id) s = settle s (Service.resolve event_id operator_id s)
handle (delete_rule rule_id) s = settle s (Service.delete_rule rule_id s)

-- Before each request the clock moves on, and the servers, the metrics and the rules may be changed
-- by other services.
pub record Turn : Type 0 where
  pub clock : ℕ → ℕ
  pub servers : Table OpsServer
  pub metrics : Table MonitorServerMetric
  pub rules : Table AlertRule
  pub request : Request

unfoldable pub serve : List Turn → Session → Session
unfolding handle
serve [] s = s
serve (t ∷ turns) s = serve turns (
    handle t.request
      (record s { clock = t.clock; servers = t.servers; metrics = t.metrics; rules = t.rules }))
