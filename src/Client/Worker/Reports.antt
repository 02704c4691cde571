-- ===== src/Client/Worker/Reports.antt =====
-- What the worker reports, and what the server makes of the types of its failures.
use ops_monitor.Common.Text.{lower, contains, codes}
use ops_monitor.Client.Executor.Controlled.{Runs, one, nothing, executor-Runs}
use ops_monitor.Client.Errors.{
  classify_failure, classify_validation_error, unknown, agent_execution_timeout,
  service_not_whitelisted, command_not_found, task_action_invalid, permission_denied,
  service_unhealthy,
}
use ops_monitor.Tasks.Service.Dispatch.{PendingTask}
use ops_monitor.Client.Executor.{Shell, Executed, returned, invalid, failed_with}
use ops_monitor.Tasks.Retry.{is_retryable, classify_error, text_or}
use ops_monitor.Common.{
  Option, String, some, List, Bool, ◌≡◌, ◌⊎◌, false, ◌++◌, ◌∷◌, map, refl, inl, [], ◌≤◌, inr, ℕ,
  length, arith, if◌then◌else◌, Bool-cases, sym, ◌+◌, suc, true, none, ◌∙◌, ap, ◌||◌,
}
use ops_monitor.Client.Worker.{report_of, TaskReport, perform, execute_all, execute_one, is_logs}

others : (message : Option String) → is_retryable (some unknown) message ≡ false
unfolding is_retryable classify_error
others message = refl

failures :
    (output message : Option String) → is_retryable (some (classify_failure output)) message ≡ false
unfolding classify_failure is_retryable classify_error
failures output message =
    let text = lower (codes (text_or output "")) in
    let has = λ (words : String). contains (codes words) text in
    go (has "超时" || has "timeout")
      (has "not found" || has "not-found" || has "no such file" || has "unknown service")
      (has "permission" || has "access denied" || has "authentication")
      (has "failed" || has "inactive" || has "dead")
  where
    go :
        (a b c d : Bool)
        → is_retryable
            (some (
              if a
              then agent_execution_timeout
              else if b
              then command_not_found
              else if c
              then permission_denied
              else if d
              then service_unhealthy
              else unknown))
            message
          ≡ false
    go true b c d = refl
    go false true c d = refl
    go false false true d = refl
    go false false false true = refl
    go false false false false = refl

validations :
    (text : String) (message : Option String)
    → is_retryable (some (classify_validation_error text)) message ≡ false
unfolding classify_validation_error is_retryable classify_error
validations text message =
    go (contains (codes "白名单") (codes text) || contains (codes "whitelist") (lower (codes text)))
  where
    go :
        (a : Bool)
        → is_retryable (some (if a then service_not_whitelisted else task_action_invalid)) message
          ≡ false
    go true = refl
    go false = refl

-- A report that is not of a success has a type that the server does not try again, whatever message
-- it is judged with: of the failures that the agent reports, none leads to a retry of its execution.
pub report_of-is_retryable :
    (task : PendingTask) (outcome : Executed) (message : Option String)
    → ((report_of task outcome).status ≡ "SUCCESS")
      ⊎ (((report_of task outcome).status ≡ "FAILED")
          × (is_retryable (report_of task outcome).error_type message ≡ false))
unfolding report_of
report_of-is_retryable task (returned true output) message = inl refl
report_of-is_retryable task (returned false output) message =
    inr (refl, failures (some output) message)
report_of-is_retryable task (invalid text) message = inr (refl, validations text message)
report_of-is_retryable task (failed_with text) message = inr (refl, others message)

report_of-id :
    (task : PendingTask) (o : Executed) → (report_of task o).execution_id ≡ task.execution_id
unfolding report_of
report_of-id task (returned true output) = refl
report_of-id task (returned false output) = refl
report_of-id task (invalid text) = refl
report_of-id task (failed_with text) = refl

append_nil : (l : List ℕ) → l ++ [] ≡ l
append_nil [] = refl
append_nil (x ∷ l) = rw (append_nil l) refl

-- What the world keeps of the reports that were posted, accepted or not.
pub record IsOutbox {World : Type 0} (shell : Shell World)
    (report : TaskReport → World → Bool × World) (posted : World → List TaskReport) : Type 0 where
  pub report_posts : (r : TaskReport) (w : World) → posted (report r w).1 ≡ posted w ++ r ∷ []
  pub run_keeps :
      (command : List String) (timeout : ℕ) (w : World)
      → posted (shell.run command timeout w).1 ≡ posted w

module _ {World : Type 0} (shell : Shell World) (allowed : List String)
    (report : TaskReport → World → Bool × World) (posted : World → List TaskReport)
    (outbox : IsOutbox shell report posted) where
  Runs-posted : (w w' : World) → Runs shell allowed w w' → posted w' ≡ posted w
  Runs-posted w w' nothing = refl
  Runs-posted w w' (one command timeout c) = outbox.run_keeps command timeout w

  perform-posted :
      (task : PendingTask) (w : World) → posted (perform shell allowed report task w).1 ≡ posted w
  unfolding perform
  perform-posted task w = elim (Bool-cases (is_logs task)) [
    | inl t ↦ rw t (Runs-posted w _ (executor-Runs shell allowed task.service_name none 0 w).1)
    | inr f ↦ rw f (
        Runs-posted w _
          (executor-Runs shell allowed task.service_name (some task.action) task.timeout_seconds
            w).0)
  ]

  -- Whatever the executor and the server do, a round of the worker posts one report for every task
  -- that it fetched, in their order and with their execution ids, and counts no more tasks than it
  -- fetched.
  pub execute_all-posted :
      (tasks : List PendingTask) (w : World)
      → (map (λ r. r.execution_id) (posted (execute_all shell allowed report tasks w).1)
          ≡ map (λ r. r.execution_id) (posted w) ++ map (λ t. t.execution_id) tasks)
        × ((execute_all shell allowed report tasks w).0 ≤ length tasks)
  unfolding execute_all execute_one
  execute_all-posted [] w = (sym (append_nil (map (λ r. r.execution_id) (posted w))), omega arith)
  execute_all-posted (task ∷ rest) w =
      let done = perform shell allowed report task w in
      let r : TaskReport = report_of task done.0 in
      let w' : World = (report r done.1).1 in
      let i = execute_all-posted rest w' in
      let p : posted w' ≡ posted w ++ r ∷ [] =
        outbox.report_posts r done.1 ∙ ap (λ l. l ++ r ∷ []) (perform-posted task w) in
      (
        i.0
            ∙ ap (λ l. map (λ r. r.execution_id) l ++ map (λ t. t.execution_id) rest) p
            ∙ ids (posted w) r (map (λ t. t.execution_id) rest)
            ∙ ap (λ n. map (λ r. r.execution_id) (posted w) ++ n ∷ map (λ t. t.execution_id) rest)
                (report_of-id task done.0),
        counted (report r done.1).0 i.1,
      )
    where
      ids :
          (l : List TaskReport) (r : TaskReport) (ns : List ℕ)
          → map (λ x. x.execution_id) (l ++ r ∷ []) ++ ns
            ≡ map (λ x. x.execution_id) l ++ r.execution_id ∷ ns
      ids [] r ns = refl
      ids (x ∷ l) r ns = rw (ids l r ns) refl

      counted : {n m : ℕ} (b : Bool) → n ≤ m → (if b then 1 else 0) + n ≤ suc m
      counted true h = omega arith
      counted false h = omega arith
