-- ===== src/Alerts/Steps/Rounds.antt =====
-- `evaluate_all` of alert_engine.py against the steps of the state machine.
use ops_monitor.Alerts.Value.{compare_values, get_value, effective_threshold}
use ops_monitor.Common.Action.Post.{Post-option, Post-if, Post-sum_each, Post-continue}
use ops_monitor.Common.Int.{ℤ}
use ops_monitor.Servers.{OpsServer}
use ops_monitor.Alerts.Session.{Session, utcnow, latest_metric, get_enabled, list_active}
use ops_monitor.Common.{List, ℕ, suc, length, refl, none, ◌==◌, if◌then◌else◌, ◌||◌}
use ops_monitor.Alerts.Model.{AlertRule, MonitorServerMetric}
use ops_monitor.Alerts.Engine.{
  evaluate_value, evaluate, evaluate_all, handle_violation, handle_recovery,
}
use ops_monitor.Alerts.Steps.Refinement.{Runs, after, handle_violation-Runs, handle_recovery-Runs}
use ops_monitor.Alerts.Steps.{Steps, same}
use ops_monitor.Common.Action.{◌>>=◌, ◌>>◌, gets, pure, Action, sum_each, ok}

evaluate_value-Runs :
    (rule : AlertRule) (server : OpsServer) (now : ℕ) (value : ℤ)
    → Runs (evaluate_value rule server now value)
unfolding evaluate_value
evaluate_value-Runs rule server now value s =
    Post-if (λ _ s'. Steps s s')
      (compare_values value rule.operator (effective_threshold rule server))
      (handle_violation rule server value (effective_threshold rule server) now >>= λ created.
        pure (if created then 1 else 0))
      (handle_recovery rule server value now >> pure 0) s
      (λ _.
        Post-continue (λ _ s'. Steps s s') (λ _ s'. Steps s s')
          (handle_violation rule server value (effective_threshold rule server) now s)
          (λ created. pure (if created then 1 else 0))
          (handle_violation-Runs rule server value (effective_threshold rule server) now s)
          (λ _ _ k. k))
      (λ _.
        Post-continue (λ _ s'. Steps s s') (λ _ s'. Steps s s')
          (handle_recovery rule server value now s) (λ _. pure 0)
          (handle_recovery-Runs rule server value now s) (λ _ _ k. k))

evaluate-Runs :
    (metrics : List MonitorServerMetric) (now : ℕ) (rule : AlertRule) (server : OpsServer)
    → Runs (evaluate metrics now rule server)
unfolding evaluate
evaluate-Runs metrics now rule server s =
    Post-option (λ _ s'. Steps s s')
      (get_value rule server (latest_metric server.id none metrics) now) (ok (0, s))
      (λ value. evaluate_value rule server now value s) (λ _. (same refl refl))
      (λ value _. evaluate_value-Runs rule server now value s)

sum_each-Runs :
    {A : Type 0} (body : A → Action Session ℕ)
    → ((x : A) → Runs (body x))
    → (xs : List A) → Runs (sum_each xs body)
sum_each-Runs body r xs s =
    Post-sum_each (λ _ s'. Steps s s') body (λ x _ t h. after h (body x) (r x)) xs s
      (same refl refl)

pub evaluate_all-Runs : Runs evaluate_all
unfolding evaluate_all utcnow
evaluate_all-Runs s =
    let t : Session = record s { clock = λ n. s.clock (suc n) } in
    Post-if (λ _ s'. Steps s s') (length (get_enabled s) == 0 || length (list_active s) == 0)
      (pure 0)
      (do
        metrics ← gets (λ s. s.metrics.rows)
        now ← utcnow
        sum_each (get_enabled s) (λ rule. sum_each (list_active s) (evaluate metrics now rule)))
      s (λ _. same refl refl)
      (λ _.
        after (same refl refl)
          (sum_each (get_enabled s)
            (λ rule. sum_each (list_active s) (evaluate s.metrics.rows (s.clock 0) rule)))
          (sum_each-Runs _
            (λ rule.
              sum_each-Runs (evaluate s.metrics.rows (s.clock 0) rule)
                (evaluate-Runs s.metrics.rows (s.clock 0) rule) (list_active s))
            (get_enabled s)))
