-- ===== src/Lock/Exclusion.antt =====
-- Runs of one job, under scheduler_lock of backend/app/core/scheduler_lock.py.
use ops_monitor.Common.Table.Laws.{Has, All-Has}
use ops_monitor.Common.{
  ℕ, All, String, ◌≤◌, ◌<◌, Option, ◌⊎◌, Bool, inl, inr, ≤-or-<, ◌≡◌, true, none, false, some,
  All-map, arith, List, str_eq, if◌then◌else◌, subst, some_injective, ◌∷◌, [], refl, sym, ◌+◌, ◌∙◌,
  eq_refl, All-filter_of, All-filter,
}
use ops_monitor.Lock.{
  LockStore, IsLockStore, Cluster, entered, Run, lock_time, is_other, release, step, steps, acquire,
  Event, wait, enter, leave, crash, idle,
}

module _ {Store : Type 0} (redis : LockStore Store) (law : IsLockStore redis) where
  -- A run's lock is over or held.
  abbrev IsKept : ℕ → Store → Run → Type 0
  IsKept now s r = (r.until ≤ now) ⊎ law.Holds s r.job r.token r.until

  abbrev AllKept : Cluster Store → Type 0
  AllKept c = All (IsKept c.now c.store) c.runs

  -- A change of the store that keeps the locks that last.
  IsKept-imp :
      (now : ℕ) (s s' : Store)
      → ((r : Run)
          → law.Holds s r.job r.token r.until
          → now < r.until
          → law.Holds s' r.job r.token r.until)
      → (r : Run) → IsKept now s r
      → IsKept now s' r
  IsKept-imp now s s' f r (inl l) = inl l
  IsKept-imp now s s' f r (inr h) = elim (≤-or-< r.until now) [
    | inl l ↦ inl l
    | inr l ↦ inr (f r h l)
  ]

  set_new-AllKept :
      (job token : String) (ttl_seconds : ℕ) (o : Option (Bool × Store)) (c : Cluster Store)
      → redis.set_new job token (lock_time redis ttl_seconds) c.now c.store ≡ o
      → AllKept c
      → AllKept (
          entered redis true job token ttl_seconds
            (elim o as (λ _. Bool × Store) [ none ↦ (false, c.store) | some r ↦ r ])
            c)
  unfolding entered
  set_new-AllKept job token ttl none c q h = h
  set_new-AllKept job token ttl (some (false, s)) c q h =
      All-map (IsKept c.now c.store) (IsKept c.now s)
        (IsKept-imp c.now c.store s (λ r k l.
          law.kept r.job r.token r.until job token (lock_time redis ttl) c.now c.store s false k q
            l))
        c.runs h
  set_new-AllKept job token ttl (some (true, s)) c q h = (
    inr (law.created job token (lock_time redis ttl) c.now c.store s q),
    All-map (IsKept c.now c.store) (IsKept c.now s)
        (IsKept-imp c.now c.store s (λ r k l.
          law.kept r.job r.token r.until job token (lock_time redis ttl) c.now c.store s true k q
            l))
        c.runs h,
  )

  -- The release of another run keeps a lock that lasts.
  deleted_keeps :
      (r x : Run) (now : ℕ) (s : Store) (holder : String) (b : Bool)
      → is_other r x ≡ true
      → redis.get r.job now s ≡ some holder
      → str_eq holder r.token ≡ b
      → law.Holds s x.job x.token x.until
      → now < x.until
      → law.Holds (if b then redis.del r.job s else s) x.job x.token x.until
  deleted_keeps r x now s holder false o g e h l = h
  deleted_keeps r x now s holder true o g e h l = law.left x.job x.token x.until r.job s h (λ q.
      let mine : redis.get r.job now s ≡ some x.token =
        subst (λ j. redis.get j now s ≡ some x.token) q (law.got x.job x.token x.until now s h l) in
      let same : holder ≡ x.token = some_injective (sym g ∙ mine) in
      let t : str_eq x.token r.token ≡ true = subst (λ k. str_eq k r.token ≡ true) same e in
      let j : str_eq x.job r.job ≡ true = rw q (eq_refl r.job) in
      let f : is_other r x ≡ false = rw (j, t) refl in cc)

  released_keeps :
      (r x : Run) (now : ℕ) (s : Store) (o : Option String)
      → is_other r x ≡ true
      → redis.get r.job now s ≡ o
      → law.Holds s x.job x.token x.until
      → now < x.until
      → law.Holds
          (elim o as (λ _. Store) [
            | none ↦ s
            | some holder ↦ if str_eq holder r.token then redis.del r.job s else s
          ])
          x.job
          x.token
          x.until
  released_keeps r x now s none d g h l = h
  released_keeps r x now s (some holder) d g h l =
      deleted_keeps r x now s holder (str_eq holder r.token) d g refl h l

  release_keeps :
      (reachable : Bool) (r x : Run) (now : ℕ) (s : Store)
      → is_other r x ≡ true
      → law.Holds s x.job x.token x.until
      → now < x.until
      → law.Holds (release redis reachable r.job r.token now s) x.job x.token x.until
  unfolding release
  release_keeps false r x now s d h l = h
  release_keeps true r x now s d h l = released_keeps r x now s (redis.get r.job now s) d refl h l

  release-IsKept :
      (reachable : Bool) (r x : Run) (now : ℕ) (s : Store)
      → IsKept now s x
      → is_other r x ≡ true
      → IsKept now (release redis reachable r.job r.token now s) x
  release-IsKept reachable r x now s (inl l) d = inl l
  release-IsKept reachable r x now s (inr h) d = elim (≤-or-< x.until now) [
    | inl l ↦ inl l
    | inr l ↦ inr (release_keeps reachable r x now s d h l)
  ]

  step-AllKept : (e : Event) (c : Cluster Store) → AllKept c → AllKept (step redis true e c)
  unfolding step acquire
  step-AllKept (wait ms) c h =
      All-map (IsKept c.now c.store) (IsKept (c.now + ms) c.store)
        (λ r k. elim k [ inl l ↦ inl (omega (arith, l)) | inr m ↦ inr m ]) c.runs h
  step-AllKept (enter job token ttl) c h =
      set_new-AllKept job token ttl (redis.set_new job token (lock_time redis ttl) c.now c.store) c
        refl h
  step-AllKept (leave r reachable) c h =
      All-filter_of (IsKept c.now c.store)
        (IsKept c.now (release redis reachable r.job r.token c.now c.store)) (is_other r)
        (λ x k d. release-IsKept reachable r x c.now c.store k d) c.runs h
  step-AllKept (crash r) c h = All-filter (IsKept c.now c.store) (is_other r) c.runs h

  steps-AllKept :
      (events : List Event) (c : Cluster Store) → AllKept c → AllKept (steps redis true events c)
  unfolding steps
  steps-AllKept [] c h = h
  steps-AllKept (e ∷ events) c h = steps-AllKept events (step redis true e c) (step-AllKept e c h)

  one_holder :
      (now : ℕ) (s : Store) (r x : Run)
      → IsKept now s r
      → IsKept now s x
      → r.job ≡ x.job
      → now < r.until
      → now < x.until
      → r.token ≡ x.token
  one_holder now s r x (inl l) k q a b = absurd (omega (arith, l, a))
  one_holder now s r x (inr h) (inl l) q a b = absurd (omega (arith, l, b))
  one_holder now s r x (inr h) (inr k) q a b =
      let g : redis.get x.job now s ≡ some r.token =
        subst (λ j. redis.get j now s ≡ some r.token) q (law.got r.job r.token r.until now s h a) in
      some_injective (sym g ∙ law.got x.job x.token x.until now s k b)

-- Where the lock is enabled and Redis keeps its laws, after any events from a cluster where
-- nothing runs: two runs of one job whose lock times are not over have the same token.
pub steps_exclude :
    {Store : Type 0} (redis : LockStore Store)
    → IsLockStore redis
    → (events : List Event) (s : Store) (now : ℕ) (r x : Run)
    → Has r (steps redis true events (idle s now)).runs
    → Has x (steps redis true events (idle s now)).runs
    → r.job ≡ x.job
    → (steps redis true events (idle s now)).now < r.until
    → (steps redis true events (idle s now)).now < x.until
    → r.token ≡ x.token
steps_exclude redis law events s now r x h k q a b =
    let c = steps redis true events (idle s now) in
    let kept = steps-AllKept redis law events (idle s now) tt in
    one_holder redis law c.now c.store r x
      (All-Has (IsKept redis law c.now c.store) r c.runs kept h)
      (All-Has (IsKept redis law c.now c.store) x c.runs kept k) q a b
