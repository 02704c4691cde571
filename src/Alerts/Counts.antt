-- ===== src/Alerts/Counts.antt =====
-- What the number that a round of the engine returns counts.
use ops_monitor.Common.Action.{ok, pure, sum_each}
use ops_monitor.Alerts.Value.{compare_values, get_value, effective_threshold, is_recovered}
use ops_monitor.Common.Table.Laws.{length-save, length-create}
use ops_monitor.Common.Table.{count}
use ops_monitor.Common.Action.Counts.{Counts, Stays, bind-Counts, sum_each-Counts}
use ops_monitor.Common.Int.{ℤ}
use ops_monitor.Common.Action.Post.{Post, Post-if, Post-option, Post-continue}
use ops_monitor.Servers.{OpsServer}
use ops_monitor.Alerts.Model.{
  AlertRule, AlertEvent, MonitorServerMetric, AlertStatus, firing, event_entity, resolved,
}
use ops_monitor.Common.{
  Bool, ℕ, List, length, if◌then◌else◌, ◌≡◌, String, Option, ◌+◌, arith, ◌==◌, none, ◌||◌, some,
  false, refl, suc,
}
use ops_monitor.Alerts.Engine.{
  transition, promote, create_alert, update_alert, handle_violation, handle_recovery,
  evaluate_value, evaluate, evaluate_all, new_event, is_pending,
}
use ops_monitor.Alerts.Session.{
  Session, record_log, create_event, utcnow, get_active_by_alert_key, get_enabled, latest_metric,
  list_active, get_active_by_alert_key, get_enabled,
}
use ops_monitor.Common.Table
use ops_monitor.Alerts.Engine.{alert_key}
use ops_monitor.Common.Action.{◌>>=◌, gets}

abbrev events_of : Session → ℕ
events_of s = length s.events.rows

transition-Stays :
    (e : AlertEvent) (b : AlertStatus) (v : ℤ) (m : String) → Stays events_of (transition e b v m)
unfolding transition record_log
transition-Stays e b v m s = length-save _ s.events

promote-Stays :
    (r : AlertRule) (e : AlertEvent) (v : ℤ) (now : ℕ) → Stays events_of (promote r e v now)
unfolding promote
promote-Stays r e v now s = ground (arith, transition-Stays e firing v "达到持续异常时长，触发告警" s)

-- 1 for true.
abbrev as_count : Bool → ℕ
as_count b = if b then 1 else 0

create_alert-adds :
    (r : AlertRule) (v : OpsServer) (x : ℤ) (t : Option ℤ) (now : ℕ) (s : Session)
    → Post (λ b s'. events_of s' ≡ events_of s + as_count b) (create_alert r v x t now s)
unfolding create_alert create_event record_log
create_alert-adds r v x t now s = ground (arith, length-create (new_event r v x t now) s.events)

update_alert-adds :
    (r : AlertRule) (e : AlertEvent) (x : ℤ) (now : ℕ) (s : Session)
    → Post (λ b s'. events_of s' ≡ events_of s + as_count b) (update_alert r e x now s)
unfolding update_alert
update_alert-adds r e x now s =
    let event : AlertEvent = record e { last_fired_at = some now; current_value = some x } in
    let t : Session = record s { events = Table.save event s.events } in
    let q : events_of t ≡ events_of s = length-save event s.events in
    Post-continue (λ _ s'. events_of s' ≡ events_of t)
      (λ b s'. events_of s' ≡ events_of s + as_count b)
      ((if is_pending event.status then promote r event x now else pure tt) t) (λ _. pure false)
      (Post-if (λ _ s'. events_of s' ≡ events_of t) (is_pending event.status)
        (promote r event x now) (pure tt) t (λ _. promote-Stays r event x now t) (λ _. refl))
      (λ _ u k. omega (arith, k, q))

handle_violation-adds :
    (r : AlertRule) (v : OpsServer) (x : ℤ) (t : Option ℤ) (now : ℕ) (s : Session)
    → Post (λ b s'. events_of s' ≡ events_of s + as_count b) (handle_violation r v x t now s)
unfolding handle_violation
handle_violation-adds r v x t now s =
    Post-option (λ b s'. events_of s' ≡ events_of s + as_count b)
      (get_active_by_alert_key (alert_key r v) s) (create_alert r v x t now s)
      (λ e. update_alert r e x now s) (λ _. create_alert-adds r v x t now s)
      (λ e _. update_alert-adds r e x now s)

handle_recovery-Stays :
    (r : AlertRule) (v : OpsServer) (x : ℤ) (now : ℕ) → Stays events_of (handle_recovery r v x now)
unfolding handle_recovery
handle_recovery-Stays r v x now s =
    Post-option (λ _ s'. events_of s' ≡ events_of s) (get_active_by_alert_key (alert_key r v) s)
      (ok (tt, s))
      (λ e.
        (if is_recovered r x
            then transition (record e { resolved_at = some now }) resolved x "指标恢复正常，告警解除"
            else pure tt)
          s)
      (λ _. refl)
      (λ e _.
        Post-if (λ _ s'. events_of s' ≡ events_of s) (is_recovered r x)
          (transition (record e { resolved_at = some now }) resolved x "指标恢复正常，告警解除") (pure tt) s
          (λ _. transition-Stays (record e { resolved_at = some now }) resolved x "指标恢复正常，告警解除" s)
          (λ _. refl))

evaluate_value-Counts :
    (r : AlertRule) (v : OpsServer) (now : ℕ) (x : ℤ) → Counts events_of (evaluate_value r v now x)
unfolding evaluate_value
evaluate_value-Counts r v now x s =
    Post-if (λ n s'. events_of s' ≡ events_of s + n)
      (compare_values x r.operator (effective_threshold r v)) _ _ s
      (λ _.
        Post-continue (λ b s'. events_of s' ≡ events_of s + as_count b)
          (λ n s'. events_of s' ≡ events_of s + n)
          (handle_violation r v x (effective_threshold r v) now s) (λ b. pure (as_count b))
          (handle_violation-adds r v x (effective_threshold r v) now s) (λ _ _ q. q))
      (λ _.
        bind-Counts events_of (handle_recovery r v x now) (λ _. pure 0)
          (handle_recovery-Stays r v x now) (λ _ t. omega arith) s)

evaluate-Counts :
    (ms : List MonitorServerMetric) (now : ℕ) (r : AlertRule) (v : OpsServer)
    → Counts events_of (evaluate ms now r v)
unfolding evaluate
evaluate-Counts ms now r v s =
    Post-option (λ n s'. events_of s' ≡ events_of s + n)
      (get_value r v (latest_metric v.id none ms) now) (ok (0, s)) (λ x. evaluate_value r v now x s)
      (λ _. omega arith) (λ x _. evaluate_value-Counts r v now x s)

-- The number that `evaluate_all` returns, if it does not raise, is by how many rows the table of
-- events has grown.
pub evaluate_all-Counts :
    (s : Session) → Post (λ n s'. length s'.events.rows ≡ length s.events.rows + n) (evaluate_all s)
unfolding evaluate_all utcnow
evaluate_all-Counts s =
    Post-if (λ n s'. events_of s' ≡ events_of s + n)
      (length (get_enabled s) == 0 || length (list_active s) == 0) (pure 0)
      (do
        metrics ← gets (λ s. s.metrics.rows)
        now ← utcnow
        sum_each (get_enabled s) (λ rule. sum_each (list_active s) (evaluate metrics now rule)))
      s (λ _. omega arith)
      (λ _.
        sum_each-Counts events_of _
          (λ rule.
            sum_each-Counts events_of (evaluate s.metrics.rows (s.clock 0) rule)
              (evaluate-Counts s.metrics.rows (s.clock 0) rule) (list_active s))
          (get_enabled s) (record s { clock = λ n. s.clock (suc n) }))
