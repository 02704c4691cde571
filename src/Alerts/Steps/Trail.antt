-- ===== src/Alerts/Steps/Trail.antt =====
-- The log of an event, under the steps of the state machine.
use ops_monitor.Common.Table.Laws.{Has, All-same_id, All-Has}
use ops_monitor.Alerts.Steps.Invariant.{IsEvents, create-IsEvents, save-IsEvents}
use ops_monitor.Alerts.Steps.{
  Step, Steps, opened, same, IsUpdate, touched, next, Edge, moved, IsLog,
}
use ops_monitor.Alerts.Session.{Session, is_active_at}
use ops_monitor.Alerts.Model.{
  AlertEvent, AlertStatus, AlertEventLog, pending, event_entity, event_log_entity,
}
use ops_monitor.Common.Table.{Table}
use ops_monitor.Common.{
  Option, ℕ, none, List, ◌≡◌, [], ◌≢◌, ◌++◌, All, ◌∷◌, ◌<◌, any, some, arith, subst, false, ◌≤◌,
  Bool-cases, All-and, All-append, ◌+◌, ◌==◌, All-on_map, All-map, inl, refl, ◌∙◌, sym, inr,
}
use ops_monitor.Common.Table

-- What an entry may record.
pub data Move : Option AlertStatus → AlertStatus → Type 0 where
  start : Move none pending
  along : {a b : AlertStatus} → Edge a b → Move (some a) b

-- The entries of one event in a list of logs lead from one status to another, each from where the
-- one before it ended.
pub data Leads (event_id : ℕ)
    : Option AlertStatus → List AlertEventLog → Option AlertStatus → Type 0 where
  arrived : {a : Option AlertStatus} → Leads event_id a [] a
  other :
      {a b : Option AlertStatus} {l : AlertEventLog} {ls : List AlertEventLog}
      → l.event_id ≢ event_id
      → Leads event_id a ls b
      → Leads event_id a (l ∷ ls) b
  entry :
      {b : Option AlertStatus} {l : AlertEventLog} {ls : List AlertEventLog}
      → l.event_id ≡ event_id
      → Move l.old_status l.new_status
      → Leads event_id (some l.new_status) ls b
      → Leads event_id l.old_status (l ∷ ls) b

Leads-other :
    (k : ℕ) {a b : Option AlertStatus} {ls : List AlertEventLog} (l : AlertEventLog)
    → l.event_id ≢ k
    → Leads k a ls b
    → Leads k a (ls ++ l ∷ []) b
Leads-other k l n arrived = other n arrived
Leads-other k l n (other m h) = other m (Leads-other k l n h)
Leads-other k l n (entry i m h) = entry i m (Leads-other k l n h)

Leads-entry :
    (k : ℕ) {a b : Option AlertStatus} {ls : List AlertEventLog} (l : AlertEventLog)
    → l.event_id ≡ k
    → Move l.old_status l.new_status
    → l.old_status ≡ b
    → Leads k a ls b
    → Leads k a (ls ++ l ∷ []) (some l.new_status)
Leads-entry k {a} {b} l i m q arrived =
    subst (λ x. Leads k x (l ∷ []) (some l.new_status)) q (entry i m arrived)
Leads-entry k l i m q (other n h) = other n (Leads-entry k l i m q h)
Leads-entry k l i m q (entry j n h) = entry j n (Leads-entry k l i m q h)

Leads-of_unnamed :
    (k : ℕ) (a : Option AlertStatus) (ls : List AlertEventLog)
    → All (λ l. l.event_id < k) ls
    → Leads k a ls a
Leads-of_unnamed k a [] h = arrived
Leads-of_unnamed k a (l ∷ ls) h = other (omega (arith, h.0)) (Leads-of_unnamed k a ls h.1)

-- The two tables: the events keep the unique key, and the log of each leads to its status.
pub record IsLogged (events : Table AlertEvent) (logs : Table AlertEventLog) : Type 0 where
  pub is_events : IsEvents events
  pub named : All (λ l. l.event_id < events.next_id) logs.rows
  pub trail : All (λ e. Leads e.id none logs.rows (some e.status)) events.rows

named-create :
    (g : ℕ → AlertEventLog) (logs : Table AlertEventLog) (n m : ℕ)
    → n ≤ m
    → (g logs.next_id).event_id < m
    → All (λ l. l.event_id < n) logs.rows
    → All (λ l. l.event_id < m) (Table.create g logs).1.rows
unfolding Table.create
named-create g logs n m h k a =
    All-append (λ l. l.event_id < m) logs.rows (g logs.next_id ∷ [])
      (All-map (λ l. l.event_id < n) (λ l. l.event_id < m) (λ l q. omega arith) logs.rows a) (k, tt)

opened-IsLogged :
    (f : ℕ → AlertEvent) (g : ℕ → AlertEventLog) (events : Table AlertEvent)
    (logs : Table AlertEventLog)
    → (f events.next_id).id ≡ events.next_id
    → (f events.next_id).status ≡ pending
    → any (is_active_at (f events.next_id).alert_key) events.rows ≡ false
    → IsLog (g logs.next_id) events.next_id none pending
    → IsLogged events logs
    → IsLogged (Table.create f events).1 (Table.create g logs).1
unfolding Table.create
opened-IsLogged f g events logs i st a l h =
    let n = events.next_id in
    let log = g logs.next_id in
    let ls = logs.rows ++ log ∷ [] in
    let m : Move log.old_status log.new_status = rw (l.old_is, l.new_is) start in
    let new : Leads n none ls (some log.new_status) =
      Leads-entry n log l.of_event m l.old_is (Leads-of_unnamed n none logs.rows h.named) in
    record {
      is_events = create-IsEvents f events i a h.is_events;
      named = named-create g logs n (n + 1) (omega arith) (rw l.of_event (omega arith)) h.named;
      trail =
          All-append (λ e. Leads e.id none ls (some e.status)) events.rows (f n ∷ [])
            (All-map (λ e. Leads e.id none logs.rows (some e.status) × (e.id < n))
              (λ e. Leads e.id none ls (some e.status))
              (λ e k. Leads-other e.id log (omega (arith, l.of_event, k.1)) k.0) events.rows
              (All-and (λ e. Leads e.id none logs.rows (some e.status)) (λ e. e.id < n) events.rows
                h.trail h.is_events.table.below))
            (rw (i, st) (subst (λ x. Leads n none ls (some x)) l.new_is new), tt);
    }

-- What a write makes of the log of each row.
module _ (old new x : AlertEvent) (u : IsUpdate old new) (ls : List AlertEventLog)
    (h : Leads x.id none ls (some x.status)) (k : x.id ≡ old.id → x.status ≡ old.status) where
  touched-row :
      new.status ≡ old.status
      → Leads (Table.replace new x).id none ls (some (Table.replace new x).status)
  touched-row st = elim (Bool-cases (x.id == new.id)) [
    | inl t ↦
        let i : x.id ≡ old.id = ground (arith, u.id) in
        let j : x.id ≡ new.id = ground arith in
        let q : x.status ≡ new.status = k i ∙ sym st in rw (t, sym j, sym q) h
    | inr f ↦ rw f h
  ]

  moved-row :
      (l : AlertEventLog)
      → Edge old.status new.status
      → IsLog l old.id (some old.status) new.status
      → Leads (Table.replace new x).id none (ls ++ l ∷ []) (some (Table.replace new x).status)
  moved-row l e w = elim (Bool-cases (x.id == new.id)) [
    | inl t ↦
        let i : x.id ≡ old.id = ground (arith, u.id) in
        let j : x.id ≡ new.id = ground arith in
        let m : Move l.old_status l.new_status = rw (w.old_is, w.new_is) (along e) in
        let q : l.old_status ≡ some x.status = rw (k i) w.old_is in
        rw (t, sym j, sym w.new_is) (Leads-entry x.id l (w.of_event ∙ sym i) m q h)
    | inr f ↦
        let n : x.id ≢ new.id = ground arith in
        rw f (Leads-other x.id l (omega (arith, w.of_event, u.id, n)) h)
  ]

module _ (old new : AlertEvent) (events : Table AlertEvent) (logs : Table AlertEventLog)
    (h : Has old events.rows) (u : IsUpdate old new) (i : IsLogged events logs) where
  -- The statuses of the rows that a write replaces, beside their logs.
  rows-IsLogged :
      All
        (λ x. Leads x.id none logs.rows (some x.status) × (x.id ≡ old.id → x.status ≡ old.status))
        events.rows
  rows-IsLogged =
      All-and (λ x. Leads x.id none logs.rows (some x.status))
        (λ x. x.id ≡ old.id → x.status ≡ old.status) events.rows i.trail
        (All-same_id (λ x. x.status ≡ old.status) old events.rows i.is_events.table.distinct h refl)

  touched-IsLogged : new.status ≡ old.status → IsLogged (Table.save new events) logs
  unfolding Table.save
  touched-IsLogged st = record {
    is_events = save-IsEvents old new events h u i.is_events;
    named = i.named;
    trail =
        All-on_map (Table.replace new) (λ e. Leads e.id none logs.rows (some e.status)) events.rows
          (All-map _ _ (λ x k. touched-row old new x u logs.rows k.0 k.1 st) events.rows
            rows-IsLogged);
  }

  moved-IsLogged :
      (g : ℕ → AlertEventLog)
      → Edge old.status new.status
      → IsLog (g logs.next_id) old.id (some old.status) new.status
      → IsLogged (Table.save new events) (Table.create g logs).1
  unfolding Table.create Table.save
  moved-IsLogged g e l = record {
    is_events = save-IsEvents old new events h u i.is_events;
    named =
        named-create g logs events.next_id events.next_id (omega arith)
          (rw l.of_event
            (All-Has (λ e. e.id < events.next_id) old events.rows i.is_events.table.below h))
          i.named;
    trail =
        All-on_map (Table.replace new)
          (λ e. Leads e.id none (logs.rows ++ g logs.next_id ∷ []) (some e.status)) events.rows
          (All-map _ _ (λ x k. moved-row old new x u logs.rows k.0 k.1 (g logs.next_id) e l)
            events.rows rows-IsLogged);
  }

Step-IsLogged : {s s' : Session} → Step s s' → IsLogged s.events s.logs → IsLogged s'.events s'.logs
Step-IsLogged (opened f g i st a l e k) h = rw (e, k) (opened-IsLogged f g _ _ i st a l h)
Step-IsLogged (touched old new h u st e k) i = rw (e, k) (touched-IsLogged old new _ _ h u i st)
Step-IsLogged (moved old new g h u st l e k) i = rw (e, k) (moved-IsLogged old new _ _ h u i g st l)

pub Steps-IsLogged :
    {s s' : Session} → Steps s s' → IsLogged s.events s.logs → IsLogged s'.events s'.logs
Steps-IsLogged (same q r) h = rw (q, r) h
Steps-IsLogged (next k st) h = Step-IsLogged st (Steps-IsLogged k h)
