-- ===== src/Tasks/Aggregate/Current.antt =====
-- The status of a task, described without the loop: the ladder of tests over the current
-- executions, which no other of their target exceeds in attempts.
use ops_monitor.Common.Table.Elements.{SameElements, any-same, Has-filter, all-same, of_Has-filter}
use ops_monitor.Tasks.Aggregate.Latest.{
  Covered, OnePerTarget, is_tie, NoTies, IsReached, latest_of-IsReached,
}
use ops_monitor.Tasks.Model.{
  OpsTaskExecution, is_retrying, is_pending, is_running, is_dead, is_failed_or_timeout, is_success,
  is_cancelled,
}
use ops_monitor.Tasks.Aggregate.{status_of_latest, aggregate_status, latest_of}
use ops_monitor.Common.{
  List, Bool, ◌≡◌, all, filter, not, true, Bool-cases, ◌==◌, ◌∷◌, inl, refl, ◌||◌, subst, arith,
  inr, leb, sym, [], false, ◌≤◌, ◌∙◌, ◌≢◌, ap,
}
use ops_monitor.Common.Table.Laws.{Has, All-Has}

abbrev pub is_current : List OpsTaskExecution → OpsTaskExecution → Bool
is_current es e = all (λ x. not (x.target_id == e.target_id) || leb x.attempt e.attempt) es

abbrev pub current : List OpsTaskExecution → List OpsTaskExecution
current es = filter (is_current es) es

status_of_latest-same :
    (xs ys : List OpsTaskExecution) → SameElements xs ys → status_of_latest xs ≡ status_of_latest ys
unfolding status_of_latest
status_of_latest-same xs ys h =
    rw
      (
        any-same (λ e. is_retrying e.status) xs ys h,
        any-same (λ e. is_pending e.status || is_running e.status) xs ys h,
        any-same (λ e. is_dead e.status) xs ys h,
        any-same (λ e. is_failed_or_timeout e.status) xs ys h,
        all-same (λ e. is_success e.status) xs ys h,
        all-same (λ e. is_cancelled e.status) xs ys h,
        any-same (λ e. is_success e.status) xs ys h,
      )
      refl

-- What the test says.
is_current-all :
    (e : OpsTaskExecution) (es : List OpsTaskExecution)
    → ((y : OpsTaskExecution) → Has y es → y.target_id ≡ e.target_id → y.attempt ≤ e.attempt)
    → is_current es e ≡ true
is_current-all e [] h = refl
is_current-all e (x ∷ es) h =
    let r : is_current es e ≡ true = is_current-all e es (λ y k. h y (inr k)) in
    let i : x.target_id ≡ e.target_id → x.attempt ≤ e.attempt = h x (inl refl) in
    elim (Bool-cases (x.target_id == e.target_id)) [
      | inl t ↦ let l : x.attempt ≤ e.attempt = i (ground arith) in ground arith
      | inr f ↦ ground arith
    ]

of_is_current :
    (e : OpsTaskExecution) (es : List OpsTaskExecution)
    → is_current es e ≡ true
    → (y : OpsTaskExecution) → Has y es
    → y.target_id ≡ e.target_id
    → y.attempt ≤ e.attempt
of_is_current e [] t y h q = absurd h
of_is_current e (x ∷ es) t y (inl i) q =
    let j : x.target_id ≡ e.target_id = subst (λ z. z.target_id ≡ e.target_id) i q in
    let l : x.attempt ≤ e.attempt = ground arith in subst (λ z. z.attempt ≤ e.attempt) (sym i) l
of_is_current e (x ∷ es) t y (inr h) q = of_is_current e es (ground arith) y h q

-- The elements that the hypotheses name.
covering :
    (y : OpsTaskExecution) (xs : List OpsTaskExecution)
    → Covered y xs
    → (x : OpsTaskExecution) × (Has x xs × ((x.target_id ≡ y.target_id) × (y.attempt ≤ x.attempt)))
covering y [] h = absurd h
covering y (x ∷ xs) (inl h) = (x, (inl refl, h))
covering y (x ∷ xs) (inr h) = let r = covering y xs h in (r.0, (inr r.1.0, r.1.1))

one_of_target :
    (xs : List OpsTaskExecution) (x y : OpsTaskExecution)
    → OnePerTarget xs
    → Has x xs
    → Has y xs
    → x.target_id ≡ y.target_id
    → x ≡ y
one_of_target [] x y o h k q = absurd h
one_of_target (z ∷ xs) x y o (inl i) (inl j) q = i ∙ sym j
one_of_target (z ∷ xs) x y o (inl i) (inr k) q =
    absurd (All-Has (λ w. w.target_id ≢ z.target_id) y xs o.0 k (sym q ∙ ap (λ w. w.target_id) i))
one_of_target (z ∷ xs) x y o (inr h) (inl j) q =
    absurd (All-Has (λ w. w.target_id ≢ z.target_id) x xs o.0 h (q ∙ ap (λ w. w.target_id) j))
one_of_target (z ∷ xs) x y o (inr h) (inr k) q = one_of_target xs x y o.1 h k q

tie_of :
    (x y : OpsTaskExecution) → x.target_id ≡ y.target_id → x.attempt ≡ y.attempt → is_tie x y ≡ true
tie_of x y q r = ground arith

no_ties :
    (xs : List OpsTaskExecution) (x y : OpsTaskExecution)
    → NoTies xs
    → Has x xs
    → Has y xs
    → x.target_id ≡ y.target_id
    → x.attempt ≡ y.attempt
    → x ≡ y
no_ties [] x y n h k q r = absurd h
no_ties (z ∷ xs) x y n (inl i) (inl j) q r = i ∙ sym j
no_ties (z ∷ xs) x y n (inl i) (inr k) q r =
    let f : is_tie z y ≡ false = All-Has (λ w. is_tie z w ≡ false) y xs n.0 k in
    let t : is_tie z y ≡ true = subst (λ w. is_tie w y ≡ true) i (tie_of x y q r) in cc
no_ties (z ∷ xs) x y n (inr h) (inl j) q r =
    let f : is_tie z x ≡ false = All-Has (λ w. is_tie z w ≡ false) x xs n.0 h in
    let t : is_tie z x ≡ true = subst (λ w. is_tie w x ≡ true) j (tie_of y x (sym q) (sym r)) in cc
no_ties (z ∷ xs) x y n (inr h) (inr k) q r = no_ties xs x y n.1 h k q r

-- The dictionary and the current executions have the same elements.
latest_of-current :
    (es : List OpsTaskExecution) → NoTies es → SameElements (latest_of es) (current es)
latest_of-current es n =
    let h : IsReached es (latest_of es) = latest_of-IsReached es in
    (
      λ x k. Has-filter (is_current es) x es (h.within x k) (
          is_current-all x es (λ y m q.
            let c = covering y (latest_of es) (h.covers y m) in
            let i : c.0 ≡ x = one_of_target (latest_of es) c.0 x h.one_each c.1.0 k (c.1.1.0 ∙ q) in
            subst (λ z. y.attempt ≤ z.attempt) i c.1.1.1)),
      λ x k.
          let m = of_Has-filter (is_current es) x es k in
          let c = covering x (latest_of es) (h.covers x m.0) in
          let l : c.0.attempt ≤ x.attempt =
            of_is_current x es m.1 c.0 (h.within c.0 c.1.0) c.1.1.0 in
          let r : x.attempt ≤ c.0.attempt = c.1.1.1 in
          let i : c.0 ≡ x = no_ties es c.0 x n (h.within c.0 c.1.0) m.0 c.1.1.0 (omega arith) in
          subst (λ z. Has z (latest_of es)) i c.1.0,
    )

-- The status that the loop and the ladder compute for a task with executions, of which no two share
-- target and attempt, is the one that the ladder gives for the current executions: those that no
-- other execution of their target exceeds in attempts. Superseded attempts do not count.
pub aggregate_status-current :
    (e : OpsTaskExecution) (es : List OpsTaskExecution)
    → NoTies (e ∷ es)
    → aggregate_status (e ∷ es) ≡ status_of_latest (current (e ∷ es))
unfolding aggregate_status
aggregate_status-current e es n =
    status_of_latest-same (latest_of (e ∷ es)) (current (e ∷ es)) (latest_of-current (e ∷ es) n)
