-- ===== src/Tasks/History/Creation.antt =====
-- Creating, confirming and firing tasks, and the executions that have ended.
use ops_monitor.Tasks.History.Writes.{History}
use ops_monitor.Tasks.History.Rounds.{create_execution-Keeps}
use ops_monitor.Tasks.History.Operations.{map_each-Keeps, sum_tasks-Keeps}
use ops_monitor.Common.Action.Post.{Post, Post-imp}
use ops_monitor.Servers.{OpsServer}
use ops_monitor.Tasks.History.Rules.{Keeps, Keeps-of_same, bind-Keeps, if-Keeps}
use ops_monitor.Tasks.Service.Scans.{fire_one, fire_due_cron, is_due_cron}
use ops_monitor.Tasks.Session.{utcnow, Session}
use ops_monitor.Tasks.Service.Creation.{
  TaskCreate, validate_servers, create_new_task, create_task, confirm_task, normalize_action,
  validate_service_whitelist, get_server,
}
use ops_monitor.Common.{ℕ, List, Option, String, arith, ◌≡◌, str_eq, subst, sym}
use ops_monitor.Tasks.Model.{OpsTaskExecution, OpsTaskTarget, OpsTask}
use ops_monitor.Common.Action.{Action, pure}
use ops_monitor.Tasks.Repository.Executions
use ops_monitor.Tasks.Repository.Tasks
use ops_monitor.Tasks.Repository.Targets

module _ (e : OpsTaskExecution) where
  same-Keeps :
      {A : Type 0} (m : Action Session A)
      → ((s : Session) → Post (λ _ s'. s' ≡ s) (m s))
      → Keeps e m
  same-Keeps m same s h =
      Post-imp (λ _ s'. s' ≡ s) (λ _ s'. History e s') (m s) (λ _ s' q. subst (History e) (sym q) h)
        (same s)

  create_executions-Keeps :
      (k : ℕ) (targets : List OpsTaskTarget) → Keeps e (Executions.create_executions k targets)
  unfolding Executions.create_executions
  create_executions-Keeps k targets =
      map_each-Keeps e (λ t. Executions.create_execution k t.id t.server_id 1)
        (λ t. create_execution-Keeps e k t.id t.server_id 1) targets

  create_targets-Keeps :
      (k : ℕ) (server_ids : List ℕ) → Keeps e (Targets.create_targets k server_ids)
  unfolding Targets.create_targets
  create_targets-Keeps k server_ids =
      map_each-Keeps e (Targets.create k)
        (λ v. Keeps-of_same e (Targets.create k v) (λ s. unfold Targets.create in ground arith)) _

  create_row-Keeps : (f : ℕ → OpsTask) → Keeps e (Tasks.create f)
  create_row-Keeps f = Keeps-of_same e (Tasks.create f) (λ s. unfold Tasks.create in ground arith)

  normalize_action-Keeps : (d : TaskCreate) → Keeps e (normalize_action d)
  normalize_action-Keeps d =
      same-Keeps (normalize_action d) (λ s. unfold normalize_action in ground arith)

  validate_servers-Keeps : (ids : List ℕ) → Keeps e (validate_servers ids)
  unfolding validate_servers
  validate_servers-Keeps ids =
      map_each-Keeps e get_server
        (λ v. same-Keeps (get_server v) (λ s. unfold get_server in ground arith)) _

  whitelist-Keeps :
      (vs : List OpsServer) (n : Option String) (a : String)
      → Keeps e (validate_service_whitelist vs n a)
  whitelist-Keeps vs n a =
      same-Keeps (validate_service_whitelist vs n a)
        (λ s. unfold validate_service_whitelist in ground arith)

  utcnow-Keeps : Keeps e utcnow
  unfolding utcnow
  utcnow-Keeps s h = h

  pub create_new_task-Keeps :
      (d : TaskCreate) (u : ℕ) (key : Option String) → Keeps e (create_new_task d u key)
  unfolding create_new_task
  create_new_task-Keeps d u key =
      bind-Keeps e (normalize_action d) _ (normalize_action-Keeps d) λ action.
        bind-Keeps e (validate_servers d.server_ids) _ (validate_servers-Keeps d.server_ids)
          λ servers.
            bind-Keeps e (validate_service_whitelist servers d.service_name action) _
              (whitelist-Keeps servers d.service_name action)
              λ _ s h.
                bind-Keeps e (Tasks.create _) _ (create_row-Keeps _)
                  (λ task.
                    bind-Keeps e (Targets.create_targets task.id _) _
                      (create_targets-Keeps task.id _)
                      (λ targets.
                        if-Keeps e (str_eq d.schedule_type "ONCE") _ (pure task)
                          (bind-Keeps e (Executions.create_executions task.id targets)
                            (λ _. pure task) (create_executions-Keeps task.id targets) (λ _ _ k. k))
                          (λ _ k. k)))
                  _ h

  pub create_task-Keeps :
      (d : TaskCreate) (u : ℕ) (key : Option String) → Keeps e (create_task d u key)
  unfolding create_task
  create_task-Keeps d u key s h = ground (arith, create_new_task-Keeps d u key s h)

  pub confirm_task-Keeps : (k u : ℕ) → Keeps e (confirm_task k u)
  unfolding confirm_task
  confirm_task-Keeps k u s h = ground arith

  fire_one-Keeps :
      (cron_next : String → ℕ → Option ℕ) (now : ℕ) (task : OpsTask)
      → Keeps e (fire_one cron_next now task)
  unfolding fire_one
  fire_one-Keeps cron_next now task =
      if-Keeps e (is_due_cron cron_next now task) _ (pure 0)
        (λ s h.
          bind-Keeps e (Executions.create_executions task.id (Targets.list_by_task task.id s)) _
            (create_executions-Keeps task.id (Targets.list_by_task task.id s)) (λ _ _ k. k) s h)
        (λ _ k. k)

  pub fire_due_cron-Keeps : (cron_next : String → ℕ → Option ℕ) → Keeps e (fire_due_cron cron_next)
  unfolding fire_due_cron utcnow
  fire_due_cron-Keeps cron_next s h =
      sum_tasks-Keeps e (fire_one cron_next (s.clock 0)) (fire_one-Keeps cron_next (s.clock 0)) _ _
        h
