-- ===== src/Tasks/HandOut.antt =====
-- What `fetch_pending` hands to an agent.
use ops_monitor.Servers.{OpsServer}
use ops_monitor.Exceptions.{attribute_error}
use ops_monitor.Common.Action.{or_raise, map_each, pure}
use ops_monitor.Common.Action.Post.{Post, Post-continue, Post-or_raise, Post-imp}
use ops_monitor.Tasks.Session.{Session, utcnow}
use ops_monitor.Tasks.Service.Dispatch.{start_task, hand_out, PendingTask, fetch_pending}
use ops_monitor.Tasks.Model.{
  OpsTaskExecution, OpsTask, running, execution_entity, task_entity, is_pending,
}
use ops_monitor.Common.{
  ℕ, List, All, ◌≡◌, arith, map, some, ◌∷◌, Bool-cases, ◌==◌, inl, inr, [], refl, true, ◌≢◌, take,
  filter, All-map, false,
}
use ops_monitor.Common.Table
use ops_monitor.Tasks.Repository.Executions

-- The rows with a key are running.
abbrev IsHandedOut : ℕ → List OpsTaskExecution → Type 0
IsHandedOut k rows = All (λ e. e.id ≡ k → e.status ≡ running) rows

running-replace :
    (x : OpsTaskExecution) (k : ℕ) (rows : List OpsTaskExecution)
    → x.status ≡ running
    → IsHandedOut k rows
    → IsHandedOut k (map (Table.replace x) rows)
running-replace x k [] q h = tt
running-replace x k (r ∷ rows) q h = (
  elim (Bool-cases (r.id == x.id)) [ inl t ↦ rw t (λ _. q) | inr f ↦ rw f h.0 ],
  running-replace x k rows q h.1,
)

handed-replace :
    (x : OpsTaskExecution) (rows : List OpsTaskExecution)
    → x.status ≡ running
    → IsHandedOut x.id (map (Table.replace x) rows)
handed-replace x [] q = tt
handed-replace x (r ∷ rows) q = (
  elim (Bool-cases (r.id == x.id)) [
    | inl t ↦ rw t (λ _. q)
    | inr f ↦ rw f (λ i. absurd (ground arith))
  ],
  handed-replace x rows q,
)

-- After a round, the execution is handed out and those that were before still are.
IsRound : ℕ → Session → Session → Type 0
IsRound k s s' =
    IsHandedOut k s'.executions.rows
    × ((j : ℕ) → IsHandedOut j s.executions.rows → IsHandedOut j s'.executions.rows)

start_task-executions :
    (task : OpsTask) (s : Session) → Post (λ _ s'. s'.executions ≡ s.executions) (start_task task s)
unfolding start_task utcnow
start_task-executions task s = ground arith

hand_out_lem :
    (e : OpsTaskExecution) (s : Session)
    → Post (λ p s'. (p.execution_id ≡ e.id) × IsRound e.id s s') (hand_out e s)
unfolding hand_out Executions.mark_running utcnow Table.save IsRound
hand_out_lem e s =
    Post-continue (λ _ t. t ≡ s) Q (or_raise (Table.get e.task_id s.tasks) attribute_error s) _
      (Post-or_raise (λ _ t. t ≡ s) (Table.get e.task_id s.tasks) attribute_error s (λ _ _. refl))
      (λ task t q. rw q (
        Post-continue (λ _ u. u.executions ≡ Table.save x s.executions) Q (start_task task _) _
          (start_task-executions task _)
          (λ _ u r. rw r (
            refl,
            (
              handed-replace x s.executions.rows refl,
              λ j h. running-replace x j s.executions.rows refl h,
            ),
          ))))
  where
    x : OpsTaskExecution
    x = record e { status = running; started_at = some (s.clock 0) }

    Q : PendingTask → Session → Type 0
    Q p s' = (p.execution_id ≡ e.id) × IsRound e.id s s'

-- What a loop of rounds returns and leaves.
record IsHanded (xs : List OpsTaskExecution) (s : Session) (ps : List PendingTask) (s' : Session)
    : Type 0 where
  ids : map (λ p. p.execution_id) ps ≡ map (λ e. e.id) xs
  handed : All (λ p. IsHandedOut p.execution_id s'.executions.rows) ps
  kept : (j : ℕ) → IsHandedOut j s.executions.rows → IsHandedOut j s'.executions.rows

hand_out-each :
    (xs : List OpsTaskExecution) (s : Session) → Post (IsHanded xs s) (map_each xs hand_out s)
unfolding map_each IsRound
hand_out-each [] s = record { ids = refl; handed = tt; kept = λ j h. h }
hand_out-each (x ∷ xs) s =
    Post-continue (λ p t. (p.execution_id ≡ x.id) × IsRound x.id s t) (IsHanded (x ∷ xs) s)
      (hand_out x s) _ (hand_out_lem x s)
      (λ p t h.
        Post-continue (IsHanded xs t) (IsHanded (x ∷ xs) s) (map_each xs hand_out t)
          (λ ps. pure (p ∷ ps)) (hand_out-each xs t)
          (λ ps u k. record {
            ids = rw (h.0, k.ids) refl;
            handed = (rw h.0 (k.kept x.id h.1.0), k.handed);
            kept = λ j q. k.kept j (h.1.1 j q);
          }))

not_claimable :
    (k : ℕ) (s : Session) (j : ℕ) (rows : List OpsTaskExecution)
    → IsHandedOut k rows
    → All (λ e. Executions.is_claimable s j e ≡ true → e.id ≢ k) rows
unfolding Executions.is_claimable
not_claimable k s j [] h = tt
not_claimable k s j (e ∷ rows) h = (
  λ t i.
      let q : e.status ≡ running = h.0 i in
      let p : is_pending e.status ≡ true = ground arith in
      let r : is_pending e.status ≡ false = rw q refl in cc,
  not_claimable k s j rows h.1,
)

-- What `fetch_pending` hands out, if it does not raise: the executions of the first ten claimable
-- rows of the server (PENDING, of a task that is PENDING or RUNNING), in their order. Afterwards
-- no row with the key of one of them is claimable by any server.
pub fetch_pending-once :
    (server : OpsServer) (s : Session)
    → Post
        (λ ps s'.
          (map (λ p. p.execution_id) ps
            ≡ map
                (λ e. e.id)
                (take 10 (filter (Executions.is_claimable s server.id) s.executions.rows)))
          × All
              (λ p.
                (k : ℕ)
                → All
                    (λ e. Executions.is_claimable s' k e ≡ true → e.id ≢ p.execution_id)
                    s'.executions.rows)
              ps)
        (fetch_pending server s)
unfolding fetch_pending Executions.fetch_pending_by_server
fetch_pending-once server s =
    let xs : List OpsTaskExecution =
      take 10 (filter (Executions.is_claimable s server.id) s.executions.rows) in
    Post-imp (IsHanded xs s) _ (map_each xs hand_out s)
      (λ ps s' h. (
        h.ids,
        All-map (λ p. IsHandedOut p.execution_id s'.executions.rows) _
            (λ p q k. not_claimable p.execution_id s' k s'.executions.rows q) ps h.handed,
      ))
      (hand_out-each xs s)
