-- ===== src/Alerts/Engine.antt =====
-- backend/app/services/alert_engine.py: the state machine of an alert, driven by one round over the
-- rules and the servers.
use ops_monitor.Exceptions.{attribute_error}
use ops_monitor.Alerts.Value.{get_value, compare_values, is_recovered, effective_threshold}
use ops_monitor.Common.Int.{ℤ}
use ops_monitor.Servers.{OpsServer}
use ops_monitor.Common.{
  List, Bool, true, ℕ, Option, String, false, some, if◌then◌else◌, none, leb, length, ◌+◌, ◌==◌,
  ◌*◌, ◌||◌,
}
use ops_monitor.Alerts.Session.{
  record_log, utcnow, Session, get_active_by_alert_key, save_event, create_event, latest_metric,
  get_enabled, list_active,
}
use ops_monitor.Alerts.Model.{
  AlertRule, AlertStatus, AlertEvent, MonitorServerMetric, AlertKey, pending, resolved, firing,
}
use ops_monitor.Common.Action.{◌>>=◌, ◌>>◌, Action, gets, ok, pure, sum_each, err}

abbrev pub alert_key : AlertRule → OpsServer → AlertKey
alert_key rule server = record {
  rule_id = rule.id;
  server_id = server.id;
  metric_type = rule.metric_type;
}

unfoldable pub new_event : AlertRule → OpsServer → ℤ → Option ℤ → (now : ℕ) → ℕ → AlertEvent
new_event rule server value threshold now k = record {
  id = k;
  rule_id = rule.id;
  server_id = some server.id;
  resource_type = rule.target_type;
  resource_id = some server.id;
  alert_key = alert_key rule server;
  metric_type = rule.metric_type;
  severity = rule.severity;
  status = pending;
  first_fired_at = some now;
  last_fired_at = some now;
  acknowledged_by = none;
  acknowledged_at = none;
  resolved_at = none;
  current_value = some value;
  threshold_value = threshold;
  message = record { rule_name = rule.rule_name; value = value; threshold = threshold };
}

-- `_transition`
unfoldable pub transition : AlertEvent → AlertStatus → ℤ → String → Action Session (Unit {0})
unfolding record_log
transition event new_status value message = do
  save_event (record event { status = new_status; current_value = some value })
  record_log event.id (some event.status) new_status (some value) message none
  pure tt

abbrev pub is_pending : AlertStatus → Bool
is_pending pending = true
is_pending _ = false

-- `elapsed >= duration`, where an event with no first time makes the subtraction fail.
unfoldable pub promote : AlertRule → AlertEvent → ℤ → (now : ℕ) → Action Session (Unit {0})
unfolding transition
promote rule event value now s = elim event.first_fired_at [
  | none ↦ err attribute_error
  | some first ↦
      (if leb (first + rule.duration_seconds * 1000000) now
          then transition event firing value "达到持续异常时长，触发告警"
          else pure tt)
        s
]

-- `_handle_violation`: true if an alert was created.
unfoldable pub create_alert : AlertRule → OpsServer → ℤ → Option ℤ → (now : ℕ) → Action Session Bool
unfolding new_event record_log
create_alert rule server value threshold now = do
  event ← create_event (new_event rule server value threshold now)
  record_log event.id none pending (some value) "检测到异常，进入待确认" none
  pure true

unfoldable pub update_alert : AlertRule → AlertEvent → ℤ → (now : ℕ) → Action Session Bool
unfolding promote
update_alert rule found value now = do
  let event = record found { last_fired_at = some now; current_value = some value }
  save_event event
  if is_pending event.status then promote rule event value now else pure tt
  pure false

unfoldable pub handle_violation :
    AlertRule → OpsServer → ℤ → Option ℤ → (now : ℕ) → Action Session Bool
unfolding create_alert update_alert
handle_violation rule server value threshold now s =
    elim (get_active_by_alert_key (alert_key rule server) s) [
      | none ↦ create_alert rule server value threshold now s
      | some event ↦ update_alert rule event value now s
    ]

-- `_handle_recovery`
unfoldable pub handle_recovery : AlertRule → OpsServer → ℤ → (now : ℕ) → Action Session (Unit {0})
unfolding transition
handle_recovery rule server value now s = elim (get_active_by_alert_key (alert_key rule server) s) [
  | none ↦ ok (tt, s)
  | some event ↦
      (if is_recovered rule value
          then transition (record event { resolved_at = some now }) resolved value "指标恢复正常，告警解除"
          else pure tt)
        s
]

-- One round of the inner loop of `evaluate_all`: 1 if an alert was created.
unfoldable pub evaluate_value : AlertRule → OpsServer → (now : ℕ) → ℤ → Action Session ℕ
unfolding handle_violation handle_recovery
evaluate_value rule server now value =
    if compare_values value rule.operator (effective_threshold rule server)
    then (do
      created ← handle_violation rule server value (effective_threshold rule server) now
      pure (if created then 1 else 0))
    else (do handle_recovery rule server value now; pure 0)

unfoldable pub evaluate :
    List MonitorServerMetric → (now : ℕ) → AlertRule → OpsServer → Action Session ℕ
unfolding evaluate_value
evaluate metrics now rule server s =
    elim (get_value rule server (latest_metric server.id none metrics) now) [
      | none ↦ ok (0, s)
      | some value ↦ evaluate_value rule server now value s
    ]

unfoldable pub evaluate_all : Action Session ℕ
unfolding evaluate utcnow
evaluate_all = do
  rules ← gets get_enabled
  servers ← gets list_active
  if length rules == 0 || length servers == 0 then pure 0 else do
    metrics ← gets (λ s. s.metrics.rows)
    now ← utcnow
    sum_each rules (λ rule. sum_each servers (evaluate metrics now rule))
