-- ===== src/Alerts/Steps/Turns.antt =====
-- Runs of requests, over the events and their logs.
use ops_monitor.Alerts.Steps.Events.{acknowledge-Runs, resolve-Runs, delete_rule-Runs}
use ops_monitor.Common.Table.Laws.{Has, Has-create, All-Has, All-same_id, Has-save}
use ops_monitor.Alerts.Steps.Trail.{IsLogged, Leads, Steps-IsLogged}
use ops_monitor.Alerts.Steps.Invariant.{IsEvents, Unique, Steps-IsEvents}
use ops_monitor.Alerts.Steps.Rounds.{evaluate_all-Runs}
use ops_monitor.Common.Action.Post.{Post}
use ops_monitor.Alerts.Steps.{
  Step, Steps, same, Steps-trans, IsUpdate, opened, next, touched, moved,
}
use ops_monitor.Common.Table.{Table}
use ops_monitor.Common.Action.{Result, settle, ok, err}
use ops_monitor.Common.{List, ◌∷◌, All, ◌≡◌, false, none, [], some, refl, ◌≢◌, sym, ◌∙◌}
use ops_monitor.Alerts.Model.{AlertEvent, is_active, resolved, event_entity}
use ops_monitor.Alerts.Requests.{
  handle, serve, Request, Turn, acknowledge, resolve, delete_rule, evaluate,
}
use ops_monitor.Alerts.Session.{Session}
use ops_monitor.Alerts.Engine
use ops_monitor.Alerts.Service

settle-Steps :
    {A : Type 0} (s : Session) (r : Result (A × Session))
    → Post (λ _ s'. Steps s s') r
    → Steps s (settle s r)
settle-Steps s (ok (a, s')) h = h
settle-Steps s (err e) h = same refl refl

handle-Steps : (r : Request) (s : Session) → Steps s (handle r s)
unfolding handle
handle-Steps evaluate s = settle-Steps s (Engine.evaluate_all s) (evaluate_all-Runs s)
handle-Steps (acknowledge k u) s =
    settle-Steps s (Service.acknowledge k u s) (acknowledge-Runs k u s)
handle-Steps (resolve k u) s = settle-Steps s (Service.resolve k u s) (resolve-Runs k u s)
handle-Steps (delete_rule k) s = settle-Steps s (Service.delete_rule k s) (delete_rule-Runs k s)

-- Any run of requests, each with a new clock and with any servers, metrics and rules, is a sequence
-- of steps of the diagram of alerts: it opens events as PENDING under a key that no active event
-- has, touches active events, or moves an active event along an edge, which it logs.
pub serve-Steps : (turns : List Turn) (s : Session) → Steps s (serve turns s)
unfolding serve
serve-Steps [] s = same refl refl
serve-Steps (t ∷ turns) s =
    Steps-trans (Steps-trans (same refl refl) (handle-Steps t.request _)) (serve-Steps turns _)

-- A row that is not active has another key than one that is.
differs :
    (e old new : AlertEvent) (t : Table AlertEvent)
    → IsEvents t
    → is_active e.status ≡ false
    → Has e t.rows
    → Has old t.rows
    → IsUpdate old new
    → new.id ≢ e.id
differs e old new t v r h o u i =
    let f =
      All-Has (λ x. x.id ≡ e.id → is_active x.status ≡ false) old t.rows
        (All-same_id (λ x. is_active x.status ≡ false) e t.rows v.table.distinct h r) o in
    let q : is_active old.status ≡ false = f (sym u.id ∙ i) in let p = u.was_active in cc

Step-Has :
    (e : AlertEvent) {s s' : Session}
    → Step s s'
    → IsEvents s.events
    → is_active e.status ≡ false
    → Has e s.events.rows
    → Has e s'.events.rows
Step-Has e (opened f g i st a l q k) v r h = rw q (Has-create e f _ h)
Step-Has e (touched old new o u st q k) v r h =
    rw q (Has-save e new _ (differs e old new _ v r h o u) h)
Step-Has e (moved old new g o u st l q k) v r h =
    rw q (Has-save e new _ (differs e old new _ v r h o u) h)

Steps-Has :
    (e : AlertEvent) {s s' : Session}
    → Steps s s'
    → IsEvents s.events
    → is_active e.status ≡ false
    → Has e s.events.rows
    → Has e s'.events.rows
Steps-Has e (same q r) v i h = rw q h
Steps-Has e (next k st) v i h = Step-Has e st (Steps-IsEvents k v) i (Steps-Has e k v i h)

-- After any run of requests, an event that was RESOLVED is still in its table, unchanged in every
-- column: nothing opens it again. At the start the keys of the events are distinct and below the
-- next one, and no two active events have one alert key.
pub serve_keeps_resolved :
    (turns : List Turn) (s : Session) (e : AlertEvent)
    → IsEvents s.events
    → Has e s.events.rows
    → e.status ≡ resolved
    → Has e (serve turns s).events.rows
serve_keeps_resolved turns s e v h q = Steps-Has e (serve-Steps turns s) v (rw q refl) h

-- After any run of requests, no two events of the table are active under one alert key, if that
-- held at the start and the keys of the events were distinct and below the next one.
pub serve_keeps_Unique :
    (turns : List Turn) (s : Session) → IsEvents s.events → Unique (serve turns s).events.rows
serve_keeps_Unique turns s v = (Steps-IsEvents (serve-Steps turns s) v).unique

-- After any run of requests, the log of each event leads from its creation as PENDING to its
-- present status: each entry starts at the status where the one before it ended and follows an edge
-- of the diagram. The same holds at the start, where no log names an event that is yet to come.
pub serve_keeps_trail :
    (turns : List Turn) (s : Session)
    → IsLogged s.events s.logs
    → All
        (λ e. Leads e.id none (serve turns s).logs.rows (some e.status))
        (serve turns s).events.rows
serve_keeps_trail turns s v = (Steps-IsLogged (serve-Steps turns s) v).trail
