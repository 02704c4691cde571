-- ===== src/Alerts/Recovery.antt =====
-- When an alert of a rule that fires below its threshold is closed: `_is_recovered` in the rounds of
-- backend/app/services/alert_engine.py.
use ops_monitor.Alerts.Engine.{evaluate_value, handle_recovery, transition, alert_key}
use ops_monitor.Alerts.Model.{AlertRule, AlertEvent, resolved, event_entity}
use ops_monitor.Alerts.Session.{Session, get_active_by_alert_key}
use ops_monitor.Alerts.Value.{is_recovered, compare_values, effective_threshold}
use ops_monitor.Common.Action.{ok, sum_each, settle, continue, pure, Result}
use ops_monitor.Common.Int.{ℤ, leb_ℤ, ◌≤ℤ◌, ltb_ℤ, pos_part, neg_part}
use ops_monitor.Common.Table.Laws.{Has, Has-find, Has-save_self}
use ops_monitor.Common.{
  ℕ, List, [], ◌∷◌, All, ◌≡◌, some, true, false, ◌+◌, ◌<◌, arith, refl, ap, Option, ◌∙◌,
  if◌then◌else◌, none,
}
use ops_monitor.Servers.{OpsServer}

module _ (rule : AlertRule) (server : OpsServer) (threshold recovery : ℤ)
    (operator : rule.operator ≡ "LT") (fires : effective_threshold rule server ≡ some threshold)
    (recovers : rule.recovery_threshold ≡ some recovery) (order : threshold ≤ℤ recovery) where
  not_fired :
      (value : ℤ)
      → threshold ≤ℤ value
      → compare_values value rule.operator (effective_threshold rule server) ≡ false
  unfolding compare_values
  not_fired value l = let b : ltb_ℤ value threshold ≡ false = ground arith in rw (fires, operator) b

  -- A round without a violation is the handling of a recovery.
  quiet :
      (now : ℕ) (value : ℤ) (s s' : Session)
      → threshold ≤ℤ value
      → handle_recovery rule server value now s ≡ ok (tt, s')
      → evaluate_value rule server now value s ≡ ok (0, s')
  unfolding evaluate_value
  quiet now value s s' l h = rw (not_fired value l) (ap (λ r. continue r (λ _. pure 0)) h)

  -- The handling of a recovery, by the alert that is active.
  abbrev handled : (now : ℕ) → ℤ → Session → Option AlertEvent → Result (Unit {0} × Session)
  handled now value s none = ok (tt, s)
  handled now value s (some event) =
      (if is_recovered rule value
          then transition (record event { resolved_at = some now }) resolved value "指标恢复正常，告警解除"
          else pure tt)
        s

  handle_recovery_lem :
      (now : ℕ) (value : ℤ) (s : Session)
      → handle_recovery rule server value now s
        ≡ handled now value s (get_active_by_alert_key (alert_key rule server) s)
  unfolding handle_recovery
  handle_recovery_lem now value s = refl

  kept :
      (now : ℕ) (value : ℤ) (s : Session)
      → is_recovered rule value ≡ false
      → handle_recovery rule server value now s ≡ ok (tt, s)
  kept now value s r =
      handle_recovery_lem now value s ∙ go (get_active_by_alert_key (alert_key rule server) s)
    where
      go : (o : Option AlertEvent) → handled now value s o ≡ ok (tt, s)
      go none = refl
      go (some event) = rw r refl

  above :
      (now : ℕ) (value : ℤ) (s : Session)
      → ltb_ℤ recovery value ≡ true
      → evaluate_value rule server now value s ≡ ok (0, s)
  unfolding is_recovered
  above now value s h =
      let a : pos_part recovery + neg_part value < pos_part value + neg_part recovery =
        ground arith in
      let c : leb_ℤ value recovery ≡ false = ground arith in
      quiet now value s s (omega arith) (kept now value s (rw (recovers) c))

  -- The rounds of a server in which the values stay above the recovery threshold.
  above_each :
      (samples : List (ℕ × ℤ)) (s : Session)
      → All (λ x. ltb_ℤ recovery x.1 ≡ true) samples
      → sum_each samples (λ x. evaluate_value rule server x.0 x.1) s ≡ ok (0, s)
  unfolding sum_each
  above_each [] s h = refl
  above_each (x ∷ samples) s h = rw (above x.0 x.1 s h.0, above_each samples s h.1) refl

  -- Take a rule that fires below its threshold (LT) and has a recovery threshold no lower, and a
  -- server with an active alert of it. However many values above the recovery threshold are
  -- evaluated, the alert is still the active one, and nothing has changed at all; and the first value
  -- from the threshold to the recovery threshold resolves it, at the time of that round.
  pub open_above_recovery :
      (event : AlertEvent) (s : Session)
      → get_active_by_alert_key (alert_key rule server) s ≡ some event
      → (samples : List (ℕ × ℤ)) → All (λ x. ltb_ℤ recovery x.1 ≡ true) samples
      → (s' : Session) × (sum_each samples (λ x. evaluate_value rule server x.0 x.1) s ≡ ok (0, s'))
        × (s' ≡ s)
        × (get_active_by_alert_key (alert_key rule server) s' ≡ some event)
        × ((now : ℕ) (value : ℤ)
            → threshold ≤ℤ value
            → value ≤ℤ recovery
            → (closed : AlertEvent) × (s'' : Session) × (evaluate_value rule server now value s'
                ≡ ok (0, s''))
              × Has closed s''.events.rows
              × (closed.id ≡ event.id)
              × (closed.status ≡ resolved)
              × (closed.resolved_at ≡ some now))
  unfolding handle_recovery transition is_recovered get_active_by_alert_key
  open_above_recovery event s active samples h = (
    s,
    above_each samples s h,
    refl,
    active,
    λ now value l u. (
      record event { resolved_at = some now; status = resolved; current_value = some value },
      after now value,
      quiet now value s (after now value) l (closes now value u),
      Has-save_self event _ s.events refl (Has-find _ s.events.rows active).0,
      refl,
      refl,
      refl,
    ),
  )
    where
      -- The session after the alert is resolved.
      after : ℕ → ℤ → Session
      after now value =
          settle s
            (transition (record event { resolved_at = some now }) resolved value "指标恢复正常，告警解除" s)

      closes :
          (now : ℕ) (value : ℤ)
          → value ≤ℤ recovery
          → handle_recovery rule server value now s ≡ ok (tt, after now value)
      closes now value u =
          let c : leb_ℤ value recovery ≡ true = ground arith in
          let r : is_recovered rule value ≡ true = rw (recovers) c in
          handle_recovery_lem now value s ∙ ap (handled now value s) active ∙ (rw r refl)
