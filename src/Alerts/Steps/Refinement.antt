-- ===== src/Alerts/Steps/Refinement.antt =====
-- `_handle_violation` and `_handle_recovery` of alert_engine.py against the steps of the state
-- machine.
use ops_monitor.Exceptions.{attribute_error}
use ops_monitor.Alerts.Value.{is_recovered}
use ops_monitor.Common.Table.Laws.{Has, Has-find, Has-save_self}
use ops_monitor.Alerts.Engine.{
  alert_key, is_pending, promote, update_alert, handle_violation, handle_recovery,
}
use ops_monitor.Servers.{OpsServer}
use ops_monitor.Common.Int.{ℤ}
use ops_monitor.Alerts.Model.{
  AlertEvent, AlertStatus, AlertRule, pending, AlertKey, is_active, firing, resolved, acknowledged,
  event_entity,
}
use ops_monitor.Common.Table
use ops_monitor.Common.{
  Bool, List, find, ◌≡◌, none, any, false, ◌∷◌, Bool-cases, inl, arith, inr, [], refl, String,
  Option, ℕ, some, true, leb, ◌+◌, if◌then◌else◌, ◌*◌,
}
use ops_monitor.Alerts.Engine.{transition, create_alert, new_event}
use ops_monitor.Alerts.Steps.{
  Steps, Step, Steps-trans, next, same, IsUpdate, Edge, moved, opened, touched, fire,
  resolve_pending, resolve_firing, resolve_acknowledged,
}
use ops_monitor.Common.Action.Post.{Post, Post-imp, Post-if, Post-continue, Post-option}
use ops_monitor.Alerts.Session.{
  Session, record_log, create_event, new_log, get_active_by_alert_key, is_active_at,
}
use ops_monitor.Common.Action.{Action, pure, err, ok}

abbrev pub Runs : {A : Type 0} → Action Session A → Type 0
Runs m = (s : Session) → Post (λ _ s'. Steps s s') (m s)

-- A run that is the next part of a longer one.
pub after :
    {A : Type 0} {s t : Session}
    → Steps s t
    → (m : Action Session A) → Runs m
    → Post (λ _ s'. Steps s s') (m t)
after {t} h m r =
    Post-imp (λ _ u. Steps t u) (λ _ u. Steps _ u) (m t) (λ _ _ k. Steps-trans h k) (r t)

one : {s t : Session} → Step s t → Steps s t
one st = next (same refl refl) st

pub Post-one :
    {A : Type 0} (m : Action Session A) (s : Session)
    → Post (λ _ s'. Step s s') (m s)
    → Post (λ _ s'. Steps s s') (m s)
Post-one m s h = Post-imp (λ _ s'. Step s s') (λ _ s'. Steps s s') (m s) (λ _ _ k. one k) h

transition-Step :
    (event : AlertEvent) (new_status : AlertStatus) (value : ℤ) (message : String)
    (old : AlertEvent) (s : Session)
    → Has old s.events.rows
    → IsUpdate old event
    → event.status ≡ old.status
    → Edge old.status new_status
    → Post (λ _ s'. Step s s') (transition event new_status value message s)
unfolding transition record_log Table.create
transition-Step event new_status value message old s h u q e =
    moved old (record event { status = new_status; current_value = some value })
      (new_log event.id (some event.status) new_status (some value) message none) h
      (record { id = u.id; key = u.key; was_active = u.was_active }) e
      (record { of_event = u.id; old_is = rw q refl; new_is = refl }) refl refl

any_of_find : {A : Type 0} (p : A → Bool) (xs : List A) → find p xs ≡ none → any p xs ≡ false
any_of_find p [] q = refl
any_of_find p (x ∷ xs) q = elim (Bool-cases (p x)) [
  | inl t ↦ ground arith
  | inr f ↦ let h : any p xs ≡ false = any_of_find p xs (ground arith) in ground arith
]

create_alert-Runs :
    (rule : AlertRule) (server : OpsServer) (value : ℤ) (threshold : Option ℤ) (now : ℕ)
    (s : Session)
    → get_active_by_alert_key (alert_key rule server) s ≡ none
    → Post (λ _ s'. Steps s s') (create_alert rule server value threshold now s)
unfolding create_alert create_event new_event record_log Table.create get_active_by_alert_key
create_alert-Runs rule server value threshold now s q =
    let f : any (is_active_at (alert_key rule server)) s.events.rows ≡ false =
      any_of_find _ s.events.rows q in
    rw f (
      one (
        opened (new_event rule server value threshold now)
          (new_log s.events.next_id none pending (some value) "检测到异常，进入待确认" none) refl refl f
          (record { of_event = refl; old_is = refl; new_is = refl }) refl refl))

active_of_found :
    (key : AlertKey) (s : Session) {e : AlertEvent}
    → get_active_by_alert_key key s ≡ some e
    → Has e s.events.rows × (is_active e.status ≡ true)
unfolding get_active_by_alert_key
active_of_found key s {e} q =
    let h = Has-find (is_active_at key) s.events.rows q in (h.0, ground arith)

fires : (b : AlertStatus) → is_pending b ≡ true → Edge b firing
fires pending q = fire
fires firing q = cc
fires acknowledged q = cc
fires resolved q = cc

promote-Runs :
    (rule : AlertRule) (event : AlertEvent) (value : ℤ) (now : ℕ) (s : Session)
    → Has event s.events.rows
    → is_active event.status ≡ true
    → is_pending event.status ≡ true
    → Post (λ _ s'. Steps s s') (promote rule event value now s)
unfolding promote
promote-Runs rule event value now s h a q =
    Post-option (λ _ s'. Steps s s') event.first_fired_at (err attribute_error)
      (λ first.
        (if leb (first + rule.duration_seconds * 1000000) now
            then transition event firing value "达到持续异常时长，触发告警"
            else pure tt)
          s)
      (λ _. tt)
      (λ first _.
        Post-if (λ _ s'. Steps s s') (leb (first + rule.duration_seconds * 1000000) now)
          (transition event firing value "达到持续异常时长，触发告警") (pure tt) s
          (λ _. Post-one (transition event firing value "达到持续异常时长，触发告警") s (
            transition-Step event firing value "达到持续异常时长，触发告警" event s h
              (record { id = refl; key = refl; was_active = a }) refl (fires event.status q)))
          (λ _. (same refl refl)))

update_alert-Runs :
    (rule : AlertRule) (found : AlertEvent) (value : ℤ) (now : ℕ) (s : Session)
    → Has found s.events.rows
    → is_active found.status ≡ true
    → Post (λ _ s'. Steps s s') (update_alert rule found value now s)
unfolding update_alert
update_alert-Runs rule found value now s h a =
    let event : AlertEvent = record found {
      last_fired_at = some now;
      current_value = some value;
    } in
    let t : Session = record s { events = Table.save event s.events } in
    let touch : Steps s t =
      one
        (touched found event h (record { id = refl; key = refl; was_active = a }) refl refl refl) in
    Post-continue (λ _ s'. Steps s s') (λ _ s'. Steps s s')
      ((if is_pending event.status then promote rule event value now else pure tt) t)
      (λ _. pure false)
      (Post-if (λ _ s'. Steps s s') (is_pending event.status) (promote rule event value now)
        (pure tt) t
        (λ q.
          Post-imp (λ _ u. Steps t u) (λ _ u. Steps s u) _ (λ _ _ k. Steps-trans touch k)
            (promote-Runs rule event value now t (Has-save_self found event s.events refl h) a q))
        (λ _. touch))
      (λ _ _ k. k)

pub handle_violation-Runs :
    (rule : AlertRule) (server : OpsServer) (value : ℤ) (threshold : Option ℤ) (now : ℕ)
    → Runs (handle_violation rule server value threshold now)
unfolding handle_violation
handle_violation-Runs rule server value threshold now s =
    Post-option (λ _ s'. Steps s s') (get_active_by_alert_key (alert_key rule server) s)
      (create_alert rule server value threshold now s) (λ e. update_alert rule e value now s)
      (create_alert-Runs rule server value threshold now s)
      (λ e f.
        let h = active_of_found (alert_key rule server) s f in
        update_alert-Runs rule e value now s h.0 h.1)

resolves : (b : AlertStatus) → is_active b ≡ true → Edge b resolved
resolves pending q = resolve_pending
resolves firing q = resolve_firing
resolves acknowledged q = resolve_acknowledged
resolves resolved q = cc

pub handle_recovery-Runs :
    (rule : AlertRule) (server : OpsServer) (value : ℤ) (now : ℕ)
    → Runs (handle_recovery rule server value now)
unfolding handle_recovery
handle_recovery-Runs rule server value now s =
    Post-option (λ _ s'. Steps s s') (get_active_by_alert_key (alert_key rule server) s)
      (ok (tt, s))
      (λ e.
        (if is_recovered rule value
            then transition (record e { resolved_at = some now }) resolved value "指标恢复正常，告警解除"
            else pure tt)
          s)
      (λ _. (same refl refl))
      (λ e f.
        let h = active_of_found (alert_key rule server) s f in
        Post-if (λ _ s'. Steps s s') (is_recovered rule value)
          (transition (record e { resolved_at = some now }) resolved value "指标恢复正常，告警解除") (pure tt)
          s
          (λ _.
            Post-one (transition (record e { resolved_at = some now }) resolved value "指标恢复正常，告警解除")
              s
              (transition-Step (record e { resolved_at = some now }) resolved value "指标恢复正常，告警解除" e
                s h.0 (record { id = refl; key = refl; was_active = h.1 }) refl
                (resolves e.status h.1)))
          (λ _. (same refl refl)))
