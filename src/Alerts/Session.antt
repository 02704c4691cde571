-- ===== src/Alerts/Session.antt =====
-- The database session of the alert engine and service, with the repositories of
-- backend/app/repositories/alert_repository.py that they use.
use ops_monitor.Exceptions.{integrity_error}
use ops_monitor.Common.Int.{ℤ}
use ops_monitor.Servers.{OpsServer, server_entity}
use ops_monitor.Common.Table
use ops_monitor.Alerts.Model.{
  AlertKey, AlertEvent, AlertRule, AlertEventLog, same_key, is_active, AlertStatus,
  MonitorServerMetric, rule_entity, event_entity, event_log_entity,
}
use ops_monitor.Common.{
  List, ℕ, Bool, Option, if◌then◌else◌, length, suc, ◌==◌, find, filter, ◌&&◌, ◌∷◌, any, String,
  some, leb, [], none,
}
use ops_monitor.Common.Table.{Table}
use ops_monitor.Common.Action.{Action, ok, err}

pub record Session : Type 0 where
  pub rules : Table AlertRule
  pub events : Table AlertEvent
  pub logs : Table AlertEventLog
  pub servers : Table OpsServer
  pub metrics : Table MonitorServerMetric
  pub clock : ℕ → ℕ

-- `_utcnow()`
unfoldable pub utcnow : Action Session ℕ
utcnow s = ok (s.clock 0, record s { clock = λ n. s.clock (suc n) })

-- `AlertRuleRepository.get_enabled` and `ServerRepository.list_active`
unfoldable pub get_enabled : Session → List AlertRule
get_enabled s = Table.list_all (λ r. r.enabled == 1) s.rules

unfoldable pub list_active : Session → List OpsServer
list_active s = Table.list_all (λ v. v.status == 1) s.servers

-- An event that is active under the key.
abbrev pub is_active_at : AlertKey → AlertEvent → Bool
is_active_at key e = same_key e.alert_key key && is_active e.status

unfoldable pub get_active_by_alert_key : AlertKey → Session → Option AlertEvent
get_active_by_alert_key key s = find (is_active_at key) s.events.rows

-- A create breaks the unique key (alert_key, is_active) if an active event has the key already.
unfoldable pub create_event : (ℕ → AlertEvent) → Action Session AlertEvent
create_event instance_of s =
    let (e, events) = Table.create instance_of s.events in
    if is_active e.status && any (is_active_at e.alert_key) s.events.rows
    then err integrity_error
    else ok (e, record s { events = events })

abbrev pub save_event : AlertEvent → Action Session AlertEvent
save_event e s = ok (e, record s { events = Table.save e s.events })

-- `AlertEventLogRepository.record`
abbrev pub new_log :
    (event_id : ℕ)
    → (old_status : Option AlertStatus) → (new_status : AlertStatus) → (current_value : Option ℤ)
    → (message : String) → (operator_id : Option ℕ) → ℕ
    → AlertEventLog
new_log event_id old_status new_status current_value message operator_id k = record {
  id = k;
  event_id = event_id;
  old_status = old_status;
  new_status = new_status;
  current_value = current_value;
  message = message;
  operator_id = operator_id;
}

unfoldable pub record_log :
    (event_id : ℕ)
    → (old_status : Option AlertStatus) → (new_status : AlertStatus) → (current_value : Option ℤ)
    → (message : String) → (operator_id : Option ℕ) → Action Session AlertEventLog
record_log event_id old_status new_status current_value message operator_id s =
    let (l, logs) =
      Table.create (new_log event_id old_status new_status current_value message operator_id)
        s.logs in
    ok (l, record s { logs = logs })

-- `MetricRepository.get_latest_map` at one server: the metric collected last, and of several the
-- last row.
unfoldable pub latest_metric :
    ℕ → Option MonitorServerMetric → List MonitorServerMetric → Option MonitorServerMetric
latest_metric server_id best [] = best
latest_metric server_id none (m ∷ rows) =
    latest_metric server_id (if m.server_id == server_id then some m else none) rows
latest_metric server_id (some b) (m ∷ rows) =
    latest_metric server_id
      (if m.server_id == server_id && leb b.collected_at m.collected_at then some m else some b)
      rows

unfoldable pub count_active : Session → ℕ
count_active s = length (filter (λ e. is_active e.status) s.events.rows)
