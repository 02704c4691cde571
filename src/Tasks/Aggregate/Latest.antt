-- ===== src/Tasks/Aggregate/Latest.antt =====
-- The loop over the executions of a task, against its description: of each target, the execution
-- that no other exceeds in attempts.
use ops_monitor.Common.Table.Laws.{Has}
use ops_monitor.Common.{
  true, false, List, ℕ, Bool, ◌∷◌, All, inl, ◌≢◌, ◌==◌, ◌≡◌, Bool-cases, arith, [], ◌&&◌, false,
  ◌≤◌, ◌⊎◌, ltb, sym, inr, if◌then◌else◌, refl, ◌<◌, subst,
}
use ops_monitor.Tasks.Model.{OpsTaskExecution}
use ops_monitor.Tasks.Aggregate.{update_latest, latest_from, latest_of}

-- Two executions of one target with one attempt, which the unique key of the table excludes.
abbrev pub is_tie : OpsTaskExecution → OpsTaskExecution → Bool
is_tie x y = x.target_id == y.target_id && x.attempt == y.attempt

abbrev pub NoTies : List OpsTaskExecution → Type 0
NoTies [] = Unit
NoTies (x ∷ xs) = All (λ y. is_tie x y ≡ false) xs × NoTies xs

-- An element of the target of `y` with as many attempts.
abbrev pub Covered : OpsTaskExecution → List OpsTaskExecution → Type 0
Covered y [] = ⊥
Covered y (x ∷ xs) = ((x.target_id ≡ y.target_id) × (y.attempt ≤ x.attempt)) ⊎ Covered y xs

abbrev Other : ℕ → List OpsTaskExecution → Type 0
Other k xs = All (λ x. x.target_id ≢ k) xs

abbrev pub OnePerTarget : List OpsTaskExecution → Type 0
OnePerTarget [] = Unit
OnePerTarget (x ∷ xs) = Other x.target_id xs × OnePerTarget xs

-- One round of the loop.
module _ (e : OpsTaskExecution) where
  Has-update :
      (x : OpsTaskExecution) (xs : List OpsTaskExecution)
      → Has x (update_latest e xs)
      → (x ≡ e) ⊎ Has x xs
  unfolding update_latest
  Has-update x [] (inl q) = inl q
  Has-update x [] (inr h) = absurd h
  Has-update x (r ∷ xs) h =
      go (r.target_id == e.target_id) (ltb r.attempt e.attempt) h (Has-update x xs)
    where
      go :
          (b c : Bool)
          → Has x (if b then (if c then e else r) ∷ xs else r ∷ update_latest e xs)
          → (Has x (update_latest e xs) → (x ≡ e) ⊎ Has x xs)
          → (x ≡ e) ⊎ Has x (r ∷ xs)
      go true true (inl q) i = inl q
      go true true (inr k) i = inr (inr k)
      go true false k i = inr k
      go false c (inl q) i = inr (inl q)
      go false c (inr k) i = elim (i k) [ inl q ↦ inl q | inr m ↦ inr (inr m) ]

  Covered-update :
      (y : OpsTaskExecution) (xs : List OpsTaskExecution)
      → Covered y xs
      → Covered y (update_latest e xs)
  unfolding update_latest
  Covered-update y [] h = absurd h
  Covered-update y (r ∷ xs) h = elim (Bool-cases (r.target_id == e.target_id)) [
    | inl t ↦ elim (Bool-cases (ltb r.attempt e.attempt)) [
      | inl u ↦
          rw (t, u)
            (elim h [
              | inl q ↦
                  let same : r.target_id ≡ e.target_id = ground arith in
                  let less : r.attempt < e.attempt = ground arith in
                  let a : e.target_id ≡ y.target_id = omega (arith, q.0, same) in
                  let b : y.attempt ≤ e.attempt = omega (arith, q.1, less) in inl (a, b)
              | inr k ↦ inr k
            ])
      | inr v ↦ rw (t, v) h
    ]
    | inr f ↦ rw f (elim h [ inl q ↦ inl q | inr k ↦ inr (Covered-update y xs k) ])
  ]

  Covered-new : (xs : List OpsTaskExecution) → Covered e (update_latest e xs)
  unfolding update_latest
  Covered-new [] = inl (refl, omega arith)
  Covered-new (r ∷ xs) = elim (Bool-cases (r.target_id == e.target_id)) [
    | inl t ↦ elim (Bool-cases (ltb r.attempt e.attempt)) [
      | inl u ↦ let b : e.attempt ≤ e.attempt = omega arith in rw (t, u) (inl (refl, b))
      | inr v ↦
          let same : r.target_id ≡ e.target_id = ground arith in
          let b : e.attempt ≤ r.attempt = ground arith in rw (t, v) (inl (same, b))
    ]
    | inr f ↦ rw f (inr (Covered-new xs))
  ]

  Other-update :
      (k : ℕ) (xs : List OpsTaskExecution)
      → e.target_id ≢ k
      → Other k xs
      → Other k (update_latest e xs)
  unfolding update_latest
  Other-update k [] n h = (n, tt)
  Other-update k (r ∷ xs) n h = elim (Bool-cases (r.target_id == e.target_id)) [
    | inl t ↦ elim (Bool-cases (ltb r.attempt e.attempt)) [
      | inl u ↦ rw (t, u) (n, h.1)
      | inr v ↦ rw (t, v) h
    ]
    | inr f ↦ rw f (h.0, Other-update k xs n h.1)
  ]

  OnePerTarget-update :
      (xs : List OpsTaskExecution) → OnePerTarget xs → OnePerTarget (update_latest e xs)
  unfolding update_latest
  OnePerTarget-update [] h = (tt, tt)
  OnePerTarget-update (r ∷ xs) h = elim (Bool-cases (r.target_id == e.target_id)) [
    | inl t ↦ elim (Bool-cases (ltb r.attempt e.attempt)) [
      | inl u ↦ rw (t, u) (let q : r.target_id ≡ e.target_id = ground arith in rw (sym q) h)
      | inr v ↦ rw (t, v) h
    ]
    | inr f ↦ rw f (Other-update r.target_id xs (ground arith) h.0, OnePerTarget-update xs h.1)
  ]

abbrev reverse_onto : List OpsTaskExecution → List OpsTaskExecution → List OpsTaskExecution
reverse_onto [] seen = seen
reverse_onto (e ∷ es) seen = reverse_onto es (e ∷ seen)

-- What the loop has reached: of the executions so far, one for each target, which covers the others.
pub record IsReached (seen latest : List OpsTaskExecution) : Type 0 where
  pub within : (x : OpsTaskExecution) → Has x latest → Has x seen
  pub covers : (y : OpsTaskExecution) → Has y seen → Covered y latest
  pub one_each : OnePerTarget latest

-- What is seen may be counted in any order: an execution passes from those to come to those seen.
IsReached-loop :
    (seen latest es : List OpsTaskExecution)
    → IsReached seen latest
    → IsReached (reverse_onto es seen) (latest_from latest es)
unfolding latest_from
IsReached-loop seen latest [] h = h
IsReached-loop seen latest (e ∷ es) h =
    IsReached-loop (e ∷ seen) (update_latest e latest) es (record {
      within = λ x k. elim (Has-update e x latest k) [ inl q ↦ inl q | inr m ↦ inr (h.within x m) ];
      covers = λ y k. elim k [
        | inl q ↦ subst (λ z. Covered z (update_latest e latest)) (sym q) (Covered-new e latest)
        | inr m ↦ Covered-update e y latest (h.covers y m)
      ];
      one_each = OnePerTarget-update e latest h.one_each;
    })

Has-reverse_onto :
    (x : OpsTaskExecution) (es seen : List OpsTaskExecution)
    → Has x es ⊎ Has x seen
    → Has x (reverse_onto es seen)
Has-reverse_onto x [] seen (inl h) = absurd h
Has-reverse_onto x [] seen (inr h) = h
Has-reverse_onto x (e ∷ es) seen (inl (inl q)) = Has-reverse_onto x es (e ∷ seen) (inr (inl q))
Has-reverse_onto x (e ∷ es) seen (inl (inr h)) = Has-reverse_onto x es (e ∷ seen) (inl h)
Has-reverse_onto x (e ∷ es) seen (inr h) = Has-reverse_onto x es (e ∷ seen) (inr (inr h))

of_Has-reverse_onto :
    (x : OpsTaskExecution) (es seen : List OpsTaskExecution)
    → Has x (reverse_onto es seen)
    → Has x es ⊎ Has x seen
of_Has-reverse_onto x [] seen h = inr h
of_Has-reverse_onto x (e ∷ es) seen h = elim (of_Has-reverse_onto x es (e ∷ seen) h) [
  | inl k ↦ inl (inr k)
  | inr k ↦ elim k [ inl q ↦ inl (inl q) | inr m ↦ inr m ]
]

-- The dictionary that the loop fills holds executions of the task, one for each target, and covers
-- every execution of the task.
pub latest_of-IsReached : (es : List OpsTaskExecution) → IsReached es (latest_of es)
unfolding latest_of
latest_of-IsReached es =
    let h =
      IsReached-loop [] [] es
        (record { within = λ x k. k; covers = λ y k. absurd k; one_each = tt }) in
    record {
      within =
          λ x k. elim (of_Has-reverse_onto x es [] (h.within x k)) [ inl m ↦ m | inr m ↦ absurd m ];
      covers = λ y k. h.covers y (Has-reverse_onto y es [] (inl k));
      one_each = h.one_each;
    }
