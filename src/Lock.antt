-- ===== src/Lock.antt =====
-- backend/app/core/scheduler_lock.py: the lock of a job, and the processes that run jobs.
pub mod Exclusion
mod Tests
use ops_monitor.Common.{
  String, ℕ, Bool, List, Option, ◌≡◌, ◌*◌, if◌then◌else◌, not, ◌+◌, ◌∷◌, some, true, str_eq, filter,
  none, [], ◌<◌, false, ◌&&◌, ◌≢◌,
}
use Prim.Native.Nat.{max}

-- Redis, at a time in milliseconds: `SET key token NX PX ttl`, where none is a RedisError, and the
-- commands of the release script. A key `sched:lock:{job_name}` is kept as its job name.
pub record LockStore (Store : Type 0) : Type 0 where
  pub set_new : (job token : String) → (ttl now : ℕ) → Store → Option (Bool × Store)
  pub get : (job : String) → (now : ℕ) → Store → Option String
  pub del : (job : String) → Store → Store

-- What Redis documents of them, where it evicts no key: `Holds s job token until` says that the key
-- of the job has the token, until a time.
pub record IsLockStore {Store : Type 0} (redis : LockStore Store) : Type 1 where
  pub Holds : Store → String → String → ℕ → Type 0
  pub created :
      (job token : String) (ttl now : ℕ) (s s' : Store)
      → redis.set_new job token ttl now s ≡ some (true, s')
      → Holds s' job token (now + ttl)
  pub kept :
      (job token : String) (until : ℕ) (job' token' : String) (ttl now : ℕ) (s s' : Store)
      (b : Bool)
      → Holds s job token until
      → redis.set_new job' token' ttl now s ≡ some (b, s')
      → now < until
      → Holds s' job token until
  pub refused :
      (job token : String) (until : ℕ) (token' : String) (ttl now : ℕ) (s s' : Store) (b : Bool)
      → Holds s job token until
      → redis.set_new job token' ttl now s ≡ some (b, s')
      → now < until
      → b ≡ false
  pub got :
      (job token : String) (until now : ℕ) (s : Store)
      → Holds s job token until
      → now < until
      → redis.get job now s ≡ some token
  pub left :
      (job token : String) (until : ℕ) (job' : String) (s : Store)
      → Holds s job token until
      → job ≢ job'
      → Holds (redis.del job' s) job token until

module _ {Store : Type 0} (redis : LockStore Store) where
  -- `px=max(1, ttl_seconds) * 1000`
  abbrev pub lock_time : ℕ → ℕ
  lock_time ttl_seconds = max 1 ttl_seconds * 1000

  -- The entry of `scheduler_lock`: whether the job may run.
  unfoldable pub acquire :
      (enabled : Bool) → (job token : String) → (ttl_seconds now : ℕ) → Store → Bool × Store
  acquire enabled job token ttl_seconds now s =
      if not enabled
      then (true, s)
      else elim (redis.set_new job token (lock_time ttl_seconds) now s) as (λ _. Bool × Store) [
        | none ↦ (false, s)
        | some r ↦ r
      ]

  -- `_release`: the script deletes the key if it has the token. A RedisError is ignored.
  unfoldable pub release : (reachable : Bool) → (job token : String) → (now : ℕ) → Store → Store
  release reachable job token now s =
      if reachable
      then elim (redis.get job now s) as (λ _. Store) [
        | none ↦ s
        | some holder ↦ if str_eq holder token then redis.del job s else s
      ]
      else s

-- A job that runs in some process, and when the time of its lock is over.
pub record Run : Type 0 where
  pub job : String
  pub token : String
  pub until : ℕ

pub record Cluster (Store : Type 0) : Type 0 where
  pub store : Store
  pub runs : List Run
  pub now : ℕ

abbrev pub idle : {Store : Type 0} → Store → ℕ → Cluster Store
idle s now = record { store = s; runs = []; now = now }

-- What happens, in any order: time passes, a process calls `run_with_lock`, the function it runs
-- ends, or the process dies.
pub data Event : Type 0 where
  wait : (milliseconds : ℕ) → Event
  enter : (job token : String) → (ttl_seconds : ℕ) → Event
  leave : Run → (reachable : Bool) → Event
  crash : Run → Event

abbrev pub is_other : Run → Run → Bool
is_other r x = not (str_eq x.job r.job && str_eq x.token r.token)

module _ {Store : Type 0} (redis : LockStore Store) (enabled : Bool) where
  -- The process runs the job if it acquired the lock.
  unfoldable pub entered :
      (job token : String) → (ttl_seconds : ℕ) → Bool × Store → Cluster Store → Cluster Store
  entered job token ttl_seconds (acquired, s) c = record c {
    store = s;
    runs =
        if acquired
        then record { job = job; token = token; until = c.now + lock_time redis ttl_seconds }
          ∷ c.runs
        else c.runs;
  }

  unfoldable pub step : Event → Cluster Store → Cluster Store
  unfolding acquire release entered
  step (wait ms) c = record c { now = c.now + ms }
  step (enter job token ttl_seconds) c =
      entered job token ttl_seconds (acquire redis enabled job token ttl_seconds c.now c.store) c
  step (leave r reachable) c = record c {
    store = if enabled then release redis reachable r.job r.token c.now c.store else c.store;
    runs = filter (is_other r) c.runs;
  }
  step (crash r) c = record c { runs = filter (is_other r) c.runs }

  unfoldable pub steps : List Event → Cluster Store → Cluster Store
  unfolding step
  steps [] c = c
  steps (e ∷ events) c = steps events (step e c)
