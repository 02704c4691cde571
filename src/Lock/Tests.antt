-- ===== src/Lock/Tests.antt =====
-- A store that keeps what IsLockStore asks, and two processes on it.
use ops_monitor.Lock.Exclusion.{steps_exclude}
use ops_monitor.Lock.{LockStore, IsLockStore, Run, steps, Event, enter, wait}
use ops_monitor.Common.{
  String, ℕ, Option, List, if◌then◌else◌, Bool, ◌+◌, ◌<◌, ◌≡◌, ◌≢◌, some, ltb, str_eq, false, none,
  true, ap, some_injective, sym, Bool-cases, ◌∷◌, inr, refl, arith, subst, inl, eq_refl, eq_iff, [],
}

abbrev Keys : Type 0
Keys = String → Option (String × ℕ)

abbrev live : ℕ → Option (String × ℕ) → Option String
live now none = none
live now (some (token, until)) = if ltb now until then some token else none

abbrev put : String → Option (String × ℕ) → Keys → Keys
put job entry s = λ j. if str_eq j job then entry else s j

-- The answer to SET, by what the key holds.
abbrev answer : Option String → String → String → ℕ → Keys → Option (Bool × Keys)
answer (some holder) job token until s = some (false, s)
answer none job token until s = some (true, put job (some (token, until)) s)

abbrev simple : LockStore Keys
simple = record {
  set_new = λ job token ttl now s. answer (live now (s job)) job token (now + ttl) s;
  get = λ job now s. live now (s job);
  del = λ job s. put job none s;
}

abbrev Holds : Keys → String → String → ℕ → Type 0
Holds s job token until = (now : ℕ) → now < until → live now (s job) ≡ some token

created_key :
    (o : Option String) (job token : String) (until : ℕ) (s s' : Keys)
    → answer o job token until s ≡ some (true, s')
    → Holds s' job token until
created_key (some h) job token until s s' q n l = cc
created_key none job token until s s' q n l =
    let e : put job (some (token, until)) s ≡ s' = ap (λ r. r.1) (some_injective q) in
    let t : ltb n until ≡ true = ground arith in
    subst (λ f. live n (f job) ≡ some token) e (rw (eq_refl job, t) refl)

kept_key :
    (o : Option String) (job token job' token' : String) (until until' now : ℕ) (s s' : Keys)
    (b : Bool)
    → live now (s job') ≡ o
    → Holds s job token until
    → answer o job' token' until' s ≡ some (b, s')
    → now < until
    → Holds s' job token until
kept_key (some h) job token job' token' until until' now s s' b g k q l n m =
    let e : s ≡ s' = ap (λ r. r.1) (some_injective q) in
    subst (λ f. live n (f job) ≡ some token) e (k n m)
kept_key none job token job' token' until until' now s s' b g k q l n m =
    let e : put job' (some (token', until')) s ≡ s' = ap (λ r. r.1) (some_injective q) in
    subst (λ f. live n (f job) ≡ some token) e
      (elim (Bool-cases (str_eq job job')) [
        | inl t ↦
            let same : job ≡ job' = (eq_iff job job').0 t in
            let held : live now (s job') ≡ some token =
              subst (λ j. live now (s j) ≡ some token) same (k now l) in
            cc
        | inr f ↦ rw f (k n m)
      ])

refused_key :
    (o : Option String) (job token token' : String) (until until' now : ℕ) (s s' : Keys) (b : Bool)
    → live now (s job) ≡ o
    → Holds s job token until
    → answer o job token' until' s ≡ some (b, s')
    → now < until
    → b ≡ false
refused_key (some h) job token token' until until' now s s' b g k q l =
    sym (ap (λ r. r.0) (some_injective q))
refused_key none job token token' until until' now s s' b g k q l = let held = k now l in cc

left_key :
    (job token : String) (until : ℕ) (job' : String) (s : Keys)
    → Holds s job token until
    → job ≢ job'
    → Holds (put job' none s) job token until
left_key job token until job' s k n now l = elim (Bool-cases (str_eq job job')) [
  | inl t ↦ absurd (n ((eq_iff job job').0 t))
  | inr f ↦ rw f (k now l)
]

simple-IsLockStore : IsLockStore simple
simple-IsLockStore = record {
  Holds = Holds;
  created = λ job token ttl now s s' q. created_key (live now (s job)) job token (now + ttl) s s' q;
  kept = λ job token until job' token' ttl now s s' b k q l.
      kept_key (live now (s job')) job token job' token' until (now + ttl) now s s' b refl k q l;
  refused = λ job token until token' ttl now s s' b k q l.
      refused_key (live now (s job)) job token token' until (now + ttl) now s s' b refl k q l;
  got = λ job token until now s k l. k now l;
  left = λ job token until job' s k n. left_key job token until job' s k n;
}

abbrev events : List Event
events =
    enter "scan" "a" 60
    ∷ enter "scan" "b" 60
    ∷ enter "clean" "c" 60
    ∷ wait 10
    ∷ enter "scan" "d" 60
    ∷ []

abbrev first_run : Run
first_run = record { job = "scan"; token = "a"; until = 60000 }

steps_exclude_example : first_run.token ≡ first_run.token
unfolding steps
steps_exclude_example =
    steps_exclude simple simple-IsLockStore events (λ _. none) 0 first_run first_run
      (inr (inl refl)) (inr (inl refl)) refl (omega arith) (omega arith)
