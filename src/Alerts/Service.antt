-- ===== src/Alerts/Service.antt =====
-- backend/app/services/alert_service.py: the operations on events, and the deletion of a rule.
use ops_monitor.Common.Table
use ops_monitor.Exceptions.{
  app, bad_request, integrity_error, alert_event_not_found, rule_not_found,
}
use ops_monitor.Alerts.Session.{record_log, utcnow, Session, save_event}
use ops_monitor.Common.{ℕ, Bool, true, Option, false, any, ◌==◌, some}
use ops_monitor.Alerts.Model.{
  AlertStatus, AlertEvent, AlertRule, resolved, acknowledged, rule_entity, event_entity,
}
use ops_monitor.Common.Action.{◌>>=◌, ◌>>◌, Action, gets, or_raise, raise_if, modify, pure}

abbrev pub is_resolved : AlertStatus → Bool
is_resolved resolved = true
is_resolved _ = false

unfoldable pub get_event_or_404 : ℕ → Action Session AlertEvent
get_event_or_404 event_id s = or_raise (Table.get event_id s.events) (app alert_event_not_found) s

unfoldable pub acknowledge : ℕ → Option ℕ → Action Session AlertEvent
unfolding get_event_or_404 record_log utcnow
acknowledge event_id operator_id = do
  event ← get_event_or_404 event_id
  raise_if (is_resolved event.status) (app bad_request)
  now ← utcnow
  event' ← save_event (record event {
    status = acknowledged;
    acknowledged_by = operator_id;
    acknowledged_at = some now;
  })
  record_log event.id (some event.status) acknowledged event.current_value "人工确认告警" operator_id
  pure event'

unfoldable pub resolve : ℕ → Option ℕ → Action Session AlertEvent
unfolding get_event_or_404 record_log utcnow
resolve event_id operator_id = do
  event ← get_event_or_404 event_id
  raise_if (is_resolved event.status) (app bad_request)
  now ← utcnow
  event' ← save_event (record event { status = resolved; resolved_at = some now })
  record_log event.id (some event.status) resolved event.current_value "人工恢复告警" operator_id
  pure event'

unfoldable pub get_rule : ℕ → Action Session AlertRule
get_rule rule_id s = or_raise (Table.get rule_id s.rules) (app rule_not_found) s

-- The foreign key of `alert_event.rule_id` keeps a rule that events name.
unfoldable pub delete_rule : ℕ → Action Session (Unit {0})
unfolding get_rule
delete_rule rule_id = do
  rule ← get_rule rule_id
  events ← gets (λ s. s.events.rows)
  raise_if (any (λ e. e.rule_id == rule.id) events) integrity_error
  modify (λ s. record s { rules = Table.delete rule s.rules })
