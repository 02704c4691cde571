-- ===== src/Tasks/Idempotency.antt =====
-- Calls of `create_task` with one idempotency key.
use ops_monitor.Tasks.Repository.Rows.{same_text}
use ops_monitor.Servers.{OpsServer}
use ops_monitor.Common.Action.Post.{
  Post, Post-map_each, Post-imp, Post-continue, Post-option, Post-if,
}
use ops_monitor.Tasks.Session.{Session, utcnow}
use ops_monitor.Tasks.Model.{OpsTask, OpsTaskTarget, task_entity}
use ops_monitor.Tasks.Service.Creation.{
  normalize_action, validate_servers, validate_service_whitelist, task_type_action, get_server,
  check_services, pick_action, TaskCreate, create_new_task, create_task, new_task,
  needs_confirmation, initial_status,
}
use ops_monitor.Common.Action.{Action, map_each, ◌>>=◌, ok, ◌>>◌, pure}
use ops_monitor.Common.{
  String, Bool, ℕ, List, ◌≡◌, find, arith, some, none, dedup, Option, true, ◌==◌, ◌++◌, ◌∙◌, ◌∷◌,
  refl, [], Bool-cases, inl, inr, str_eq, false, any, eq_refl, map, if◌then◌else◌, suc,
}
use ops_monitor.Common.Table
use ops_monitor.Tasks.Repository.Executions
use ops_monitor.Tasks.Repository.Targets
use ops_monitor.Tasks.Repository.Tasks

-- A call that returned `task` leaves it to be found under the key.
Keyed : String → OpsTask → Session → Type 0
Keyed key task s = Tasks.get_by_idempotency_key key s ≡ some task

find-append :
    {A : Type 0} (p : A → Bool) (xs : List A) (x : A)
    → find p xs ≡ none
    → p x ≡ true
    → find p (xs ++ x ∷ []) ≡ some x
find-append p [] x q t = rw t refl
find-append p (y ∷ xs) x q t = elim (Bool-cases (p y)) [
  | inl yes_ ↦ ground arith
  | inr no_ ↦ rw no_ (find-append p xs x (ground arith) t)
]

-- The tasks stay where only targets or executions are created.
Same : {A : Type 0} → Action Session A → Type 0
Same m = (s : Session) → Post (λ _ s'. s'.tasks ≡ s.tasks) (m s)

map_each-Same :
    {A B : Type 0} (body : A → Action Session B)
    → ((x : A) → Same (body x))
    → (xs : List A) → Same (map_each xs body)
unfolding Same
map_each-Same body h xs s =
    Post-map_each (λ _ t. t.tasks ≡ s.tasks) body
      (λ x _ t q.
        Post-imp (λ _ u. u.tasks ≡ t.tasks) (λ _ u. u.tasks ≡ s.tasks) (body x t) (λ _ _ r. r ∙ q)
          (h x t))
      xs s refl

create_targets-Same : (k : ℕ) (ids : List ℕ) → Same (Targets.create_targets k ids)
unfolding Targets.create_targets Targets.create Same
create_targets-Same k ids = map_each-Same (Targets.create k) (λ x s. ground arith) (dedup ◌==◌ ids)

create_executions-Same :
    (k : ℕ) (targets : List OpsTaskTarget) → Same (Executions.create_executions k targets)
unfolding Executions.create_executions Executions.create_execution Same
create_executions-Same k targets =
    map_each-Same (λ t. Executions.create_execution k t.id t.server_id 1) (λ x s. ground arith)
      targets

pick_action-Same : (a b : Option String) → Same (pick_action a b)
unfolding pick_action Same
pick_action-Same none none s = tt
pick_action-Same none (some b) s = ground arith
pick_action-Same (some a) none s = refl
pick_action-Same (some a) (some b) s = ground arith

task_type_action-Same : (t : String) → Same (task_type_action t)
unfolding task_type_action Same
task_type_action-Same t s = ground arith

-- An action that keeps the tasks, before any other.
bind-Same :
    {A B : Type 0} (Q : B → Session → Type 0) (m : Action Session A) (f : A → Action Session B)
    (s : Session)
    → Same m
    → ((a : A) (t : Session) → t.tasks ≡ s.tasks → Post Q (f a t))
    → Post Q ((m >>= f) s)
unfolding Same
bind-Same Q m f s h k = Post-continue (λ _ t. t.tasks ≡ s.tasks) Q (m s) f (h s) k

normalize_action-Same : (d : TaskCreate) → Same (normalize_action d)
unfolding normalize_action Same
normalize_action-Same d s =
    bind-Same (λ _ s'. s'.tasks ≡ s.tasks) (task_type_action d.task_type)
      (λ allowed. pick_action allowed d.action) s (task_type_action-Same d.task_type)
      (λ a t q.
        Post-imp (λ _ u. u.tasks ≡ t.tasks) (λ _ u. u.tasks ≡ s.tasks) (pick_action a d.action t)
          (λ _ _ r. r ∙ q) (pick_action-Same a d.action t))

validate_servers-Same : (ids : List ℕ) → Same (validate_servers ids)
unfolding validate_servers get_server Same
validate_servers-Same ids = map_each-Same get_server (λ x s. ground arith) (dedup ◌==◌ ids)

validate_service_whitelist-Same :
    (servers : List OpsServer) (n : Option String) (a : String)
    → Same (validate_service_whitelist servers n a)
unfolding validate_service_whitelist check_services Same
validate_service_whitelist-Same servers n a s = ground arith

create-Keyed :
    (key : String) (f : ℕ → OpsTask) (s : Session)
    → str_eq key "" ≡ false
    → ((k : ℕ) → (f k).idempotency_key ≡ some key)
    → Tasks.get_by_idempotency_key key s ≡ none
    → Post (λ task s'. Keyed key task s') (Tasks.create f s)
unfolding Keyed Tasks.create Tasks.get_by_idempotency_key Table.create Table.get_by
create-Keyed key f s n h q =
    elim (Bool-cases
      (any (λ r. same_text r.idempotency_key (f s.tasks.next_id).idempotency_key) s.tasks.rows)) [
        | inl t ↦ rw t tt
        | inr g ↦
            let p : (OpsTask → Bool) =
              Table.visible (λ t. same_text t.idempotency_key (some key)) in
            let none_yet : find p s.tasks.rows ≡ none = ground arith in
            let new : p (f s.tasks.next_id) ≡ true = rw (h s.tasks.next_id, eq_refl key) refl in
            rw (g, n) (find-append p s.tasks.rows (f s.tasks.next_id) none_yet new)
      ]

Keyed-same :
    (key : String) (task : OpsTask) (s t : Session)
    → t.tasks ≡ s.tasks
    → Keyed key task s
    → Keyed key task t
unfolding Keyed Tasks.get_by_idempotency_key
Keyed-same key task s t q h = rw q h

-- What follows the creation of the row.
targets-Keyed :
    (d : TaskCreate) (key : String) (task : OpsTask) (servers : List OpsServer) (s : Session)
    → Keyed key task s
    → Post
        (λ task' s'. Keyed key task' s')
        ((Targets.create_targets task.id (map (λ v. v.id) servers) >>= λ targets.
            if str_eq d.schedule_type "ONCE"
            then Executions.create_executions task.id targets >> pure task
            else pure task)
          s)
targets-Keyed d key task servers s h =
    bind-Same Q (Targets.create_targets task.id (map (λ v. v.id) servers)) _ s
      (create_targets-Same task.id (map (λ v. v.id) servers))
      (λ targets t q.
        Post-if Q (str_eq d.schedule_type "ONCE")
          (Executions.create_executions task.id targets >> pure task) (pure task) t
          (λ _.
            bind-Same Q (Executions.create_executions task.id targets) (λ _. pure task) t
              (create_executions-Same task.id targets) (λ _ u r. Keyed-same key task s u (r ∙ q) h))
          (λ _. Keyed-same key task s t q h))
  where
    Q : OpsTask → Session → Type 0
    Q task' s' = Keyed key task' s'

none_yet :
    (key : String) (s t : Session)
    → t.tasks ≡ s.tasks
    → Tasks.get_by_idempotency_key key s ≡ none
    → Tasks.get_by_idempotency_key key t ≡ none
unfolding Tasks.get_by_idempotency_key
none_yet key s t r q = rw r q

create_new_task-Keyed :
    (d : TaskCreate) (u : ℕ) (key : String) (s : Session)
    → str_eq key "" ≡ false
    → Tasks.get_by_idempotency_key key s ≡ none
    → Post (λ task s'. Keyed key task s') (create_new_task d u (some key) s)
unfolding create_new_task utcnow new_task
create_new_task-Keyed d u key s n q =
    bind-Same Q (normalize_action d) _ s (normalize_action-Same d) (λ action s1 q1.
      bind-Same Q (validate_servers d.server_ids) _ s1 (validate_servers-Same d.server_ids)
        (λ servers s2 q2.
          bind-Same Q (validate_service_whitelist servers d.service_name action) _ s2
            (validate_service_whitelist-Same servers d.service_name action)
            (λ _ s3 q3.
              let confirm = needs_confirmation d action in
              let make : ℕ → OpsTask =
                new_task d action (initial_status d confirm) u (some key) confirm (s3.clock 0)
                  (s3.clock 1) in
              let later : Session = record s3 { clock = λ n'. s3.clock (suc (suc n')) } in
              Post-continue Q Q (Tasks.create make later) _
                (create-Keyed key make later n (λ _. refl) (none_yet key s later (q3 ∙ q2 ∙ q1) q))
                (λ task t h. targets-Keyed d key task servers t h))))
  where
    Q : OpsTask → Session → Type 0
    Q task s' = Keyed key task s'

create_task-Keyed :
    (d : TaskCreate) (u : ℕ) (key : String) (s : Session)
    → str_eq key "" ≡ false
    → Post (λ task s'. Keyed key task s') (create_task d u (some key) s)
unfolding create_task Keyed
create_task-Keyed d u key s n = rw n (
    Post-option (λ task s'. Keyed key task s') (Tasks.get_by_idempotency_key key s)
      (create_new_task d u (some key) s) (λ existing. ok (existing, s))
      (λ q. create_new_task-Keyed d u key s n q) (λ existing q. q))

found_again :
    (d : TaskCreate) (u : ℕ) (key : String) (task : OpsTask) (t : Session)
    → str_eq key "" ≡ false
    → Keyed key task t
    → create_task d u (some key) t ≡ ok (task, t)
unfolding create_task Keyed
found_again d u key task t n h = rw (n, h) refl

-- If a call of `create_task` with a key that is not the empty text returns a task, then a second
-- call with that key, by any user and with any request, returns the same task and changes nothing,
-- in the session that the first call left and in every one whose table of tasks is the same.
pub create_task_again :
    (d d' : TaskCreate) (u u' : ℕ) (key : String) (s : Session)
    → str_eq key "" ≡ false
    → Post
        (λ task s'.
          (t : Session) → t.tasks ≡ s'.tasks → create_task d' u' (some key) t ≡ ok (task, t))
        (create_task d u (some key) s)
create_task_again d d' u u' key s n =
    Post-imp (λ task s'. Keyed key task s') _ (create_task d u (some key) s)
      (λ task s' h t q. found_again d' u' key task t n (Keyed-same key task s' t q h))
      (create_task-Keyed d u key s n)
