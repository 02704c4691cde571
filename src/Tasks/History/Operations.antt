-- ===== src/Tasks/History/Operations.antt =====
-- The operations of `TaskService` on a row that has ended.
use ops_monitor.Tasks.Service.Status.{get_task_entity, can_retry, aggregate_task_status}
use ops_monitor.Servers.{OpsServer}
use ops_monitor.Common.Action.Post.{
  Post-imp, Post-sum_each, Post-map_each, Post, Post-for_each, Post-continue,
}
use ops_monitor.Tasks.Service.Scans.{
  scan_task, scan_timeouts, retry_one, dispatch_retries, filter_expired, retry_limit, time_out,
}
use ops_monitor.Tasks.Service.Dispatch.{fetch_pending, fetch_limit, hand_out}
use ops_monitor.Tasks.Service.Creation.{cancel_task, cancel_execution}
use ops_monitor.Tasks.History.Rounds.{
  IsOpen, pending_is_open, cancel_execution-Keeps, hand_out-Keeps, time_out-Keeps,
  next_attempt-Keeps, exhaust-Keeps,
}
use ops_monitor.Tasks.History.Rules.{
  Keeps, bind-Keeps, get_task_entity-Keeps, if-Keeps, finish-Keeps, aggregate-Keeps,
  can_retry-Keeps,
}
use ops_monitor.Tasks.History.Writes.{History, Other, open-Other, Holds}
use ops_monitor.Tasks.Session.{Session, utcnow}
use ops_monitor.Common.{
  List, ℕ, ◌≡◌, All, true, false, All-filter, [], Bool-cases, inl, none, inr, arith, ◌∷◌, ◌&&◌,
  Bool, All-take, if◌then◌else◌, All-filter_of, All-sort_by, ◌∙◌, length, ◌==◌, refl, subst, sym,
}
use ops_monitor.Tasks.Model.{OpsTaskExecution, is_terminal, OpsTask, failed, is_retrying}
use ops_monitor.Common.Table
use ops_monitor.Common.Action.{Action, for_each, sum_each, map_each, pure}
use ops_monitor.Tasks.Repository.Executions

claimable_is_open :
    (s : Session) (k : ℕ) (x : OpsTaskExecution)
    → Executions.is_claimable s k x ≡ true
    → is_terminal x.status ≡ false
unfolding Executions.is_claimable
claimable_is_open s k x t = pending_is_open x.status (ground arith)

due_is_open :
    (now : ℕ) (x : OpsTaskExecution)
    → (is_retrying x.status && Executions.is_due now x.next_retry_at) ≡ true
    → is_terminal x.status ≡ false
due_is_open now x t = ground arith

module _ (e : OpsTaskExecution) where
  -- The state of a loop: the row is there, and the rows to come are others.
  abbrev Ahead : (OpsTaskExecution → Type 0) → List OpsTaskExecution → Session → Type 0
  Ahead P xs s = History e s × All P xs

  for_each-Keeps :
      (P : OpsTaskExecution → Type 0) (body : OpsTaskExecution → Action Session (Unit {0}))
      → ((x : OpsTaskExecution) → P x → Keeps e (body x))
      → (xs : List OpsTaskExecution) → All P xs
      → Keeps e (for_each xs body)
  for_each-Keeps P body step xs all_xs s h =
      Post-imp (λ _ s'. Ahead P [] s') (λ _ s'. History e s') (for_each xs body s) (λ _ _ j. j.0)
        (Post-for_each (Ahead P) body
          (λ x rest s' j.
            Post-imp (λ _ s''. History e s'') (λ _ s''. Ahead P rest s'') (body x s')
              (λ _ _ k. (k, j.1.1)) (step x j.1.0 s' j.0))
          xs s (h, all_xs))

  sum_each-Keeps :
      (P : OpsTaskExecution → Type 0) (body : OpsTaskExecution → Action Session ℕ)
      → ((x : OpsTaskExecution) → P x → Keeps e (body x))
      → (xs : List OpsTaskExecution) → All P xs
      → Keeps e (sum_each xs body)
  sum_each-Keeps P body step xs all_xs s h =
      Post-imp (λ _ s'. Ahead P [] s') (λ _ s'. History e s') (sum_each xs body s) (λ _ _ j. j.0)
        (Post-sum_each (Ahead P) body
          (λ x rest s' j.
            Post-imp (λ _ s''. History e s'') (λ _ s''. Ahead P rest s'') (body x s')
              (λ _ _ k. (k, j.1.1)) (step x j.1.0 s' j.0))
          xs s (h, all_xs))

  -- Over tasks or targets, whose rounds need no premise.
  pub sum_tasks-Keeps :
      {A : Type 0} (body : A → Action Session ℕ)
      → ((x : A) → Keeps e (body x))
      → (xs : List A) → Keeps e (sum_each xs body)
  sum_tasks-Keeps body step xs = Post-sum_each (λ _ s. History e s) body (λ x _ s h. step x s h) xs

  pub map_each-Keeps :
      {A B : Type 0} (body : A → Action Session B)
      → ((x : A) → Keeps e (body x))
      → (xs : List A) → Keeps e (map_each xs body)
  map_each-Keeps body step xs = Post-map_each (λ _ s. History e s) body (λ x _ s h. step x s h) xs

  is_expired_lem :
      (n : ℕ) (x : OpsTaskExecution) (s : Session)
      → Post
          (λ b s'. (s'.executions ≡ s.executions) × (b ≡ true → is_terminal x.status ≡ false))
          (Executions.is_expired n x s)
  unfolding Executions.is_expired
  is_expired_lem n x s = ground arith

  filter_expired-lem :
      (n : ℕ) (P : OpsTaskExecution → Type 0) (xs : List OpsTaskExecution) (s : Session)
      → All (λ x. is_terminal x.status ≡ false → P x) xs
      → Post (λ ys s'. (s'.executions ≡ s.executions) × All P ys) (filter_expired n xs s)
  unfolding filter_expired
  filter_expired-lem n P [] s h = (refl, tt)
  filter_expired-lem n P (x ∷ xs) s h =
      Post-continue
        (λ b s'. (s'.executions ≡ s.executions) × (b ≡ true → is_terminal x.status ≡ false)) Q
        (Executions.is_expired n x s) _ (is_expired_lem n x s)
        (λ b s' q.
          Post-continue (λ ys s''. (s''.executions ≡ s'.executions) × All P ys) Q
            (filter_expired n xs s') _ (filter_expired-lem n P xs s' h.1)
            (λ ys s'' r. (r.0 ∙ q.0, keep b ys (λ t. h.0 (q.1 t)) r.1)))
    where
      Q : List OpsTaskExecution → Session → Type 0
      Q ys s'' = (s''.executions ≡ s.executions) × All P ys

      keep :
          (b : Bool) (ys : List OpsTaskExecution)
          → (b ≡ true → P x)
          → All P ys
          → All P (if b then x ∷ ys else ys)
      keep true ys px h' = (px refl, h')
      keep false ys px h' = h'

  module _ (done : is_terminal e.status ≡ true) where
    list_by_task-IsOpen :
        (k : ℕ) (s : Session) → History e s → All (IsOpen e) (Executions.list_by_task k s)
    unfolding Executions.list_by_task Table.list_all
    list_by_task-IsOpen k s h =
        All-filter (IsOpen e) _ s.executions.rows (open-Other e s.executions done h)

    pub cancel_task-Keeps : (k : ℕ) → Keeps e (cancel_task k)
    unfolding cancel_task
    cancel_task-Keeps k =
        bind-Keeps e (get_task_entity k) _ (get_task_entity-Keeps e k) (λ task s h.
          elim (Bool-cases (is_terminal task.status)) [
            | inl t ↦ rw t tt
            | inr f ↦ rw f (
                bind-Keeps e (for_each (Executions.list_by_task task.id s) cancel_execution) _
                  (for_each-Keeps (IsOpen e) cancel_execution (cancel_execution-Keeps e) _
                    (list_by_task-IsOpen task.id s h))
                  (λ _. aggregate-Keeps e task) s h)
          ])

    claimed-Other :
        (k : ℕ) (s : Session)
        → History e s
        → All (Other e) (Executions.fetch_pending_by_server k fetch_limit s)
    unfolding Executions.fetch_pending_by_server
    claimed-Other k s h = All-take (Other e) fetch_limit _ (
        All-filter_of (IsOpen e) (Other e) (Executions.is_claimable s k)
          (λ x o t. o (claimable_is_open s k x t)) s.executions.rows
          (open-Other e s.executions done h))

    pub fetch_pending-Keeps : (server : OpsServer) → Keeps e (fetch_pending server)
    unfolding fetch_pending
    fetch_pending-Keeps server s h =
        Post-imp (λ _ s'. Ahead (Other e) [] s') (λ _ s'. History e s')
          (map_each (Executions.fetch_pending_by_server server.id fetch_limit s) hand_out s)
          (λ _ _ j. j.0)
          (Post-map_each (Ahead (Other e)) hand_out
            (λ x rest s' j.
              Post-imp (λ _ s''. History e s'') (λ _ s''. Ahead (Other e) rest s'') (hand_out x s')
                (λ _ _ k. (k, j.1.1)) (hand_out-Keeps e x j.1.0 s' j.0))
            _ s (h, claimed-Other server.id s h))

    pub scan_task-Keeps : (task : OpsTask) → Keeps e (scan_task task)
    unfolding scan_task
    scan_task-Keeps task s h =
        Post-continue (λ ys s'. (s'.executions ≡ s.executions) × All (Other e) ys)
          (λ _ s'. History e s')
          (filter_expired task.timeout_seconds (Executions.list_by_task task.id s) s) _
          (filter_expired-lem task.timeout_seconds (Other e) (Executions.list_by_task task.id s) s
            (list_by_task-IsOpen task.id s h))
          (λ ys s' q.
            bind-Keeps e (for_each ys (time_out task.timeout_seconds)) _
              (for_each-Keeps (Other e) (time_out task.timeout_seconds)
                (time_out-Keeps e task.timeout_seconds) ys q.1)
              (λ _.
                if-Keeps e (length ys == 0) (pure 0) _ (λ _ k. k)
                  (bind-Keeps e (aggregate_task_status task) (λ _. pure (length ys))
                    (aggregate-Keeps e task) (λ _ _ k. k)))
              s' (subst (Holds e) (sym q.0) h))

    pub scan_timeouts-Keeps : Keeps e scan_timeouts
    unfolding scan_timeouts
    scan_timeouts-Keeps s h = sum_tasks-Keeps scan_task scan_task-Keeps _ s h

    pub retry_one-Keeps : (x : OpsTaskExecution) → Other e x → Keeps e (retry_one x)
    unfolding retry_one
    retry_one-Keeps x ne =
        bind-Keeps e (get_task_entity x.task_id) _ (get_task_entity-Keeps e x.task_id) (λ task.
          if-Keeps e (is_terminal task.status) _ _
            (bind-Keeps e (Executions.finish x failed none none x.error_message x.error_type)
              (λ _. pure 0) (finish-Keeps e x failed none none x.error_message x.error_type ne)
              (λ _ _ h. h))
            (bind-Keeps e (can_retry task x) _ (can_retry-Keeps e task x) (λ budget.
              if-Keeps e budget _ _ (next_attempt-Keeps e task x ne) (exhaust-Keeps e task x ne))))

    due-Other :
        (now : ℕ) (s : Session)
        → History e s
        → All (Other e) (Executions.list_due_retries now retry_limit s)
    unfolding Executions.list_due_retries
    due-Other now s h = All-take (Other e) retry_limit _ (
        All-sort_by (Other e) Executions.retry_time _ (
          All-filter_of (IsOpen e) (Other e) _ (λ x o t. o (due_is_open now x t)) s.executions.rows
            (open-Other e s.executions done h)))

    pub dispatch_retries-Keeps : Keeps e dispatch_retries
    unfolding dispatch_retries utcnow Executions.list_due_retries
    dispatch_retries-Keeps s h =
        sum_each-Keeps (Other e) retry_one retry_one-Keeps _ (due-Other (s.clock 0) s h) _ h
