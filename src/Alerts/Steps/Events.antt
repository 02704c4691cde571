-- ===== src/Alerts/Steps/Events.antt =====
-- The operations of alert_service.py against the steps of the state machine.
use ops_monitor.Exceptions.{integrity_error, app, bad_request, alert_event_not_found}
use ops_monitor.Common.Action.Post.{Post-raise_if, Post, Post-continue, Post-or_raise}
use ops_monitor.Common.Table.Laws.{Has, Has-get}
use ops_monitor.Common.Action.{Action, ◌>>=◌, raise_if, modify, or_raise}
use ops_monitor.Alerts.Session.{record_log, Session, utcnow, new_log}
use ops_monitor.Common.{
  ℕ, ◌≡◌, Option-cases, false, Option, inl, inr, true, some, any, ◌==◌, refl, subst, sym,
}
use ops_monitor.Alerts.Service.{
  get_event_or_404, acknowledge, resolve, delete_rule, is_resolved, get_rule,
}
use ops_monitor.Alerts.Model.{
  AlertStatus, AlertEvent, is_active, acknowledged, resolved, pending, firing, rule_entity,
  event_entity,
}
use ops_monitor.Common.Table
use ops_monitor.Alerts.Steps.Refinement.{Runs}
use ops_monitor.Alerts.Steps.{
  Steps, same, Edge, next, moved, acknowledge_pending, resolve_pending, acknowledge_firing,
  resolve_firing, acknowledge_again, resolve_acknowledged,
}

-- What is not resolved is active.
active_of : (b : AlertStatus) → is_resolved b ≡ false → is_active b ≡ true
active_of pending q = refl
active_of firing q = refl
active_of acknowledged q = refl
active_of resolved q = cc

acknowledges : (b : AlertStatus) → is_resolved b ≡ false → Edge b acknowledged
acknowledges pending q = acknowledge_pending
acknowledges firing q = acknowledge_firing
acknowledges acknowledged q = acknowledge_again
acknowledges resolved q = cc

resolves_active : (b : AlertStatus) → is_resolved b ≡ false → Edge b resolved
resolves_active pending q = resolve_pending
resolves_active firing q = resolve_firing
resolves_active acknowledged q = resolve_acknowledged
resolves_active resolved q = cc

-- An operation on the event with a key: it raises if there is none or it is resolved, and else goes
-- on from it.
on_event-Runs :
    {A : Type 0} (event_id : ℕ) (s : Session) (body : AlertEvent → Action Session A)
    → ((e : AlertEvent)
        → Has e s.events.rows
        → is_resolved e.status ≡ false
        → Post (λ _ s'. Steps s s') (body e s))
    → Post
        (λ _ s'. Steps s s')
        ((get_event_or_404 event_id >>= λ e.
            raise_if (is_resolved e.status) (app bad_request) >>= λ _. body e)
          s)
unfolding get_event_or_404
on_event-Runs event_id s body h =
    Post-continue (λ e t. Has e s.events.rows × (t ≡ s)) (λ _ s'. Steps s s')
      (or_raise (Table.get event_id s.events) (app alert_event_not_found) s) _
      (Post-or_raise (λ e t. Has e s.events.rows × (t ≡ s)) (Table.get event_id s.events)
        (app alert_event_not_found) s (λ e q. (Has-get event_id s.events q, refl)))
      (λ e t k.
        subst
          (λ u.
            Post (λ _ s'. Steps s s')
              ((raise_if (is_resolved e.status) (app bad_request) >>= λ _. body e) u))
          (sym k.1)
          (Post-raise_if (λ _ s'. Steps s s') (is_resolved e.status) (app bad_request) (body e) s
            (λ q. h e k.0 q)))

pub acknowledge-Runs :
    (event_id : ℕ) (operator_id : Option ℕ) → Runs (acknowledge event_id operator_id)
unfolding acknowledge record_log Table.create utcnow
acknowledge-Runs event_id operator_id s = on_event-Runs event_id s _ (λ e h q.
    next (same {t = s} refl refl) (
      moved e
        (record e {
          status = acknowledged;
          acknowledged_by = operator_id;
          acknowledged_at = some (s.clock 0);
        })
        (new_log e.id (some e.status) acknowledged e.current_value "人工确认告警" operator_id) h
        (record { id = refl; key = refl; was_active = active_of e.status q })
        (acknowledges e.status q) (record { of_event = refl; old_is = refl; new_is = refl }) refl
        refl))

pub resolve-Runs : (event_id : ℕ) (operator_id : Option ℕ) → Runs (resolve event_id operator_id)
unfolding resolve record_log Table.create utcnow
resolve-Runs event_id operator_id s = on_event-Runs event_id s _ (λ e h q.
    next (same {t = s} refl refl) (
      moved e (record e { status = resolved; resolved_at = some (s.clock 0) })
        (new_log e.id (some e.status) resolved e.current_value "人工恢复告警" operator_id) h
        (record { id = refl; key = refl; was_active = active_of e.status q })
        (resolves_active e.status q) (record { of_event = refl; old_is = refl; new_is = refl }) refl
        refl))

pub delete_rule-Runs : (rule_id : ℕ) → Runs (delete_rule rule_id)
unfolding delete_rule get_rule
delete_rule-Runs rule_id s = elim (Option-cases (Table.get rule_id s.rules)) [
  | inl n ↦ rw n tt
  | inr (r, q) ↦ rw q (
      Post-raise_if (λ _ s'. Steps s s') (any (λ e. e.rule_id == r.id) s.events.rows)
        integrity_error (modify (λ t. record t { rules = Table.delete r t.rules })) s
        (λ _. same refl refl))
]
