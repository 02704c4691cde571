-- ===== src/Alerts/Steps/Invariant.antt =====
-- The unique key (alert_key, is_active) of the table of events: what a step keeps of it.
use ops_monitor.Alerts.Steps.{IsUpdate, Step, Steps, opened, same, next, touched, moved}
use ops_monitor.Common.Table.Laws.{IsTable, Has, save-IsTable, create-IsTable, All-same_id}
use ops_monitor.Alerts.Session.{Session, is_active_at}
use ops_monitor.Common.Table.{Table}
use ops_monitor.Common.{
  List, Bool, ◌∷◌, ◌≡◌, All, any, false, map, ◌&&◌, true, Bool-cases, ◌++◌, All-map, [], All-append,
  ◌==◌, inl, arith, inr, refl, sym, ◌∙◌, ℕ,
}
use ops_monitor.Alerts.Model.{AlertEvent, same_key, is_active, event_entity}
use ops_monitor.Common.Table

-- Two events that hold the unique key both.
abbrev pub clash : AlertEvent → AlertEvent → Bool
clash a b = same_key a.alert_key b.alert_key && is_active a.status && is_active b.status

abbrev pub Unique : List AlertEvent → Type 0
Unique [] = Unit
Unique (e ∷ es) = All (λ x. clash e x ≡ false) es × Unique es

-- A row after a write: its key stays, and it is not active if it was not before.
record IsLess (old new : AlertEvent) : Type 0 where
  key : new.alert_key ≡ old.alert_key
  active : is_active new.status ≡ true → is_active old.status ≡ true

clash-IsLess :
    (a a' b b' : AlertEvent) → IsLess a a' → IsLess b b' → clash a b ≡ false → clash a' b' ≡ false
clash-IsLess a a' b b' h k q = elim (Bool-cases (clash a' b')) [
  | inl t ↦
      let ta : is_active a'.status ≡ true = ground arith in
      let tb : is_active b'.status ≡ true = ground arith in
      let ka : is_active a.status ≡ true = h.active ta in
      let kb : is_active b.status ≡ true = k.active tb in
      let ts : same_key a'.alert_key b'.alert_key ≡ true = ground arith in
      let ss : same_key a.alert_key b.alert_key ≡ true = rw (sym h.key, sym k.key) ts in
      let c : clash a b ≡ true = rw (ss, ka, kb) refl in cc
  | inr f ↦ f
]

All-clash :
    (f : AlertEvent → AlertEvent) (a : AlertEvent) (xs : List AlertEvent)
    → IsLess a (f a)
    → All (λ x. IsLess x (f x)) xs
    → All (λ x. clash a x ≡ false) xs
    → All (λ x. clash (f a) x ≡ false) (map f xs)
All-clash f a [] h hs c = tt
All-clash f a (x ∷ xs) h hs c =
    (clash-IsLess a (f a) x (f x) h hs.0 c.0, All-clash f a xs h hs.1 c.1)

Unique-map :
    (f : AlertEvent → AlertEvent) (xs : List AlertEvent)
    → All (λ x. IsLess x (f x)) xs
    → Unique xs
    → Unique (map f xs)
Unique-map f [] h u = tt
Unique-map f (x ∷ xs) h u = (All-clash f x xs h.0 h.1 u.0, Unique-map f xs h.1 u.1)

Unique-append :
    (e : AlertEvent) (xs : List AlertEvent)
    → any (is_active_at e.alert_key) xs ≡ false
    → Unique xs
    → Unique (xs ++ e ∷ [])
Unique-append e [] a u = (tt, tt)
Unique-append e (x ∷ xs) a u = (
  All-append (λ y. clash x y ≡ false) xs (e ∷ []) u.0 (ground arith, tt),
  Unique-append e xs (ground arith) u.1,
)

pub record IsEvents (t : Table AlertEvent) : Type 0 where
  pub table : IsTable t
  pub unique : Unique t.rows

replace-IsLess :
    (old new x : AlertEvent)
    → IsUpdate old new
    → (x.id ≡ old.id → (x.alert_key ≡ old.alert_key) × (is_active x.status ≡ true))
    → IsLess x (Table.replace new x)
replace-IsLess old new x u h = elim (Bool-cases (x.id == new.id)) [
  | inl t ↦
      let i : x.id ≡ old.id = ground (arith, u.id) in
      let w = h i in rw t (record { key = u.key ∙ sym w.0; active = λ _. w.1 })
  | inr f ↦ rw f (record { key = refl; active = λ a. a })
]

pub save-IsEvents :
    (old new : AlertEvent) (t : Table AlertEvent)
    → Has old t.rows
    → IsUpdate old new
    → IsEvents t
    → IsEvents (Table.save new t)
unfolding Table.save
save-IsEvents old new t h u i = record {
  table = save-IsTable new t i.table;
  unique =
      Unique-map (Table.replace new) t.rows
        (All-map (λ x. x.id ≡ old.id → (x.alert_key ≡ old.alert_key) × (is_active x.status ≡ true))
          (λ x. IsLess x (Table.replace new x)) (λ x k. replace-IsLess old new x u k) t.rows
          (All-same_id (λ x. (x.alert_key ≡ old.alert_key) × (is_active x.status ≡ true)) old t.rows
            i.table.distinct h (refl, u.was_active)))
        i.unique;
}

pub create-IsEvents :
    (f : ℕ → AlertEvent) (t : Table AlertEvent)
    → (f t.next_id).id ≡ t.next_id
    → any (is_active_at (f t.next_id).alert_key) t.rows ≡ false
    → IsEvents t
    → IsEvents (Table.create f t).1
unfolding Table.create
create-IsEvents f t i a h = record {
  table = create-IsTable f t i h.table;
  unique = Unique-append (f t.next_id) t.rows a h.unique;
}

pub Step-IsEvents : {s s' : Session} → Step s s' → IsEvents s.events → IsEvents s'.events
Step-IsEvents (opened f g i st a l e k) h = rw e (create-IsEvents f _ i a h)
Step-IsEvents (touched old new h u st e k) i = rw e (save-IsEvents old new _ h u i)
Step-IsEvents (moved old new g h u st l e k) i = rw e (save-IsEvents old new _ h u i)

pub Steps-IsEvents : {s s' : Session} → Steps s s' → IsEvents s.events → IsEvents s'.events
Steps-IsEvents (same q r) h = rw q h
Steps-IsEvents (next k st) h = Step-IsEvents st (Steps-IsEvents k h)
