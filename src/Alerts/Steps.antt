-- ===== src/Alerts/Steps.antt =====
-- The state machine of the alerts, as a relation between sessions: what the engine and the service
-- may do to the tables of events and logs in one step.
pub mod Refinement
pub mod Rounds
pub mod Events
pub mod Turns
pub mod Invariant
pub mod Trail
use ops_monitor.Common.Table.Laws.{Has}
use ops_monitor.Common.{◌≡◌, ℕ, true, any, false, none, some, Option, ◌∙◌}
use ops_monitor.Alerts.Session.{Session, is_active_at}
use ops_monitor.Alerts.Model.{
  AlertStatus, AlertEvent, pending, firing, is_active, AlertEventLog, acknowledged, resolved,
  event_entity, event_log_entity,
}
use ops_monitor.Common.Table

-- The diagram: from an active state to FIRING, ACKNOWLEDGED or RESOLVED.
pub data Edge : AlertStatus → AlertStatus → Type 0 where
  fire : Edge pending firing
  acknowledge_pending : Edge pending acknowledged
  acknowledge_firing : Edge firing acknowledged
  acknowledge_again : Edge acknowledged acknowledged
  resolve_pending : Edge pending resolved
  resolve_firing : Edge firing resolved
  resolve_acknowledged : Edge acknowledged resolved

-- The row that a log is about, and the change of status that it records.
pub record IsLog (l : AlertEventLog) (event_id : ℕ) (old : Option AlertStatus) (new : AlertStatus)
    : Type 0 where
  pub of_event : l.event_id ≡ event_id
  pub old_is : l.old_status ≡ old
  pub new_is : l.new_status ≡ new

-- `new` is a later state of the alert `old`.
pub record IsUpdate (old new : AlertEvent) : Type 0 where
  pub id : new.id ≡ old.id
  pub key : new.alert_key ≡ old.alert_key
  pub was_active : is_active old.status ≡ true

pub data Step (s s' : Session) : Type 0 where
  -- A new alert, PENDING, under a key that no active alert has.
  opened :
      (f : ℕ → AlertEvent) (g : ℕ → AlertEventLog)
      → (f s.events.next_id).id ≡ s.events.next_id
      → (f s.events.next_id).status ≡ pending
      → any (is_active_at (f s.events.next_id).alert_key) s.events.rows ≡ false
      → IsLog (g s.logs.next_id) s.events.next_id none pending
      → s'.events ≡ (Table.create f s.events).1
      → s'.logs ≡ (Table.create g s.logs).1
      → Step s s'
  -- An active alert seen again.
  touched :
      (old new : AlertEvent)
      → Has old s.events.rows
      → IsUpdate old new
      → new.status ≡ old.status
      → s'.events ≡ Table.save new s.events
      → s'.logs ≡ s.logs
      → Step s s'
  -- An active alert moved along an edge, with a log.
  moved :
      (old new : AlertEvent) (g : ℕ → AlertEventLog)
      → Has old s.events.rows
      → IsUpdate old new
      → Edge old.status new.status
      → IsLog (g s.logs.next_id) old.id (some old.status) new.status
      → s'.events ≡ Table.save new s.events
      → s'.logs ≡ (Table.create g s.logs).1
      → Step s s'

-- Any number of steps, and any change outside the two tables.
pub data Steps (s : Session) : Session → Type 0 where
  same : {t : Session} → t.events ≡ s.events → t.logs ≡ s.logs → Steps s t
  next : {t u : Session} → Steps s t → Step t u → Steps s u

Step-same : {s t u : Session} → Step s t → u.events ≡ t.events → u.logs ≡ t.logs → Step s u
Step-same (opened f g i st a l e k) q r = opened f g i st a l (q ∙ e) (r ∙ k)
Step-same (touched old new h i st e k) q r = touched old new h i st (q ∙ e) (r ∙ k)
Step-same (moved old new g h i st l e k) q r = moved old new g h i st l (q ∙ e) (r ∙ k)

Steps-same : {s t u : Session} → Steps s t → u.events ≡ t.events → u.logs ≡ t.logs → Steps s u
Steps-same (same e k) q r = same (q ∙ e) (r ∙ k)
Steps-same (next h st) q r = next h (Step-same st q r)

pub Steps-trans : {s t u : Session} → Steps s t → Steps t u → Steps s u
Steps-trans h (same q r) = Steps-same h q r
Steps-trans h (next k st) = next (Steps-trans h k) st
