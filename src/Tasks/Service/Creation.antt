-- ===== src/Tasks/Service/Creation.antt =====
-- `create_task`, `confirm_task` and `cancel_task`, with the request body of
-- backend/app/schemas/task.py.
use ops_monitor.Tasks.Repository.Rows.{save_task}
use ops_monitor.Exceptions.{
  app, server_not_found, bad_request, key_error, task_action_invalid, service_not_whitelisted,
}
use ops_monitor.Tasks.Retry.{is_one_of, is_given}
use ops_monitor.Servers.{OpsServer, server_entity, service_entity}
use ops_monitor.Tasks.Model.{
  OpsTaskExecution, Status, OpsTask, is_pending, cancelled, is_terminal, created, is_created, text,
  pending,
}
use ops_monitor.Tasks.Service.Status.{get_task_entity, aggregate_task_status}
use ops_monitor.Tasks.Session.{utcnow, Session, seconds}
use ops_monitor.Common.{
  String, List, Option, ℕ, Bool, ◌≢◌, ◌∷◌, none, [], if◌then◌else◌, ◌==◌, str_eq, dedup, all, some,
  map, ◌≤◌, ◌&&◌, false, or_else, not, ◌||◌, ◌+◌, ◌*◌,
}
use ops_monitor.Common.Table
use ops_monitor.Common.Action.{
  ◌>>=◌, ◌>>◌, Action, or_raise, map_each, raise_if, pure, ok, raise, err, gets, for_each,
}
use ops_monitor.Tasks.Repository.Executions
use ops_monitor.Tasks.Repository.Targets
use ops_monitor.Tasks.Repository.Tasks

pub record TaskCreate : Type 0 where
  pub task_name : String
  pub task_type : String
  pub action : Option String
  pub service_name : Option String
  pub server_ids : List ℕ
  pub schedule_type : String
  pub cron_expression : Option String
  pub timeout_seconds : ℕ
  pub max_attempts : ℕ
  pub confirmation_required : Option Bool

-- The field constraints of the schema, lengths of texts left out.
pub record IsTaskCreate (data_in : TaskCreate) : Type 0 where
  pub some_server : data_in.server_ids ≢ []
  pub timeout_low : 10 ≤ data_in.timeout_seconds
  pub timeout_high : data_in.timeout_seconds ≤ 3600
  pub attempts_low : 1 ≤ data_in.max_attempts
  pub attempts_high : data_in.max_attempts ≤ 10

abbrev pub confirm_required_actions : List String
confirm_required_actions = "START" ∷ "STOP" ∷ "RESTART" ∷ []

-- `TASK_TYPE_ACTION[task_type]`: the one action of a type, or none for a service action.
unfoldable pub task_type_action : String → Action Session (Option String)
task_type_action t =
    if str_eq t "SERVICE_CHECK"
    then pure (some "STATUS")
    else if str_eq t "SERVICE_ACTION"
    then pure none
    else if str_eq t "SERVICE_LOG"
    then pure (some "LOGS")
    else raise key_error

-- The rest of `_normalize_action`, by the action that the type allows and the one asked for.
unfoldable pub pick_action : Option String → Option String → Action Session String
pick_action (some allowed) none = pure allowed
pick_action (some allowed) (some action) =
    if str_eq action allowed then pure allowed else raise (app task_action_invalid)
pick_action none none = raise (app task_action_invalid)
pick_action none (some action) =
    if is_one_of confirm_required_actions action
    then pure action
    else raise (app task_action_invalid)

unfoldable pub normalize_action : TaskCreate → Action Session String
unfolding task_type_action pick_action
normalize_action data_in = do
  allowed ← task_type_action data_in.task_type
  pick_action allowed data_in.action

unfoldable pub get_server : ℕ → Action Session OpsServer
get_server sid s = or_raise (Table.get sid s.servers) (app server_not_found) s

unfoldable pub validate_servers : List ℕ → Action Session (List OpsServer)
unfolding get_server
validate_servers server_ids = map_each (dedup ◌==◌ server_ids) get_server

-- `service is None or service.is_whitelisted != 1`
unfoldable pub is_allowed : String → Session → OpsServer → Bool
is_allowed name s server =
    elim (Table.get_by (λ r. r.server_id == server.id && str_eq r.service_name name) s.services) [
      | none ↦ false
      | some service ↦ service.is_whitelisted == 1
    ]

unfoldable pub check_services : List OpsServer → String → Action Session (Unit {0})
unfolding is_allowed
check_services servers name s =
    if all (is_allowed name s) servers then ok (tt, s) else err (app service_not_whitelisted)

unfoldable pub validate_service_whitelist :
    List OpsServer → Option String → String → Action Session (Unit {0})
unfolding check_services
validate_service_whitelist servers service_name action =
    if str_eq action "STATUS" || str_eq action "LOGS"
    then pure tt
    else if is_given service_name
    then check_services servers (or_else service_name "")
    else raise (app bad_request)

-- The columns of the new row, but for its key.
unfoldable pub new_task :
    TaskCreate
    → (action : String) → (status : Status) → (creator_id : ℕ) → (idempotency_key : Option String)
    → (confirm_required : Bool) → (now : ℕ) → (created_at : ℕ) → ℕ
    → OpsTask
new_task data_in action status creator_id key confirm_required now created_at k = record {
  id = k;
  task_name = data_in.task_name;
  task_type = data_in.task_type;
  action = action;
  service_name = data_in.service_name;
  schedule_type = data_in.schedule_type;
  cron_expression = data_in.cron_expression;
  status = status;
  created_by = creator_id;
  started_at = none;
  finished_at = none;
  timeout_seconds = data_in.timeout_seconds;
  max_attempts = data_in.max_attempts;
  attempt = 0;
  deadline_at = some (now + seconds (data_in.timeout_seconds * data_in.max_attempts));
  idempotency_key = key;
  confirmation_required = if confirm_required then 1 else 0;
  confirmed_by = none;
  confirmed_at = none;
  created_at = some created_at;
}

unfoldable pub needs_confirmation : TaskCreate → String → Bool
needs_confirmation data_in action = elim data_in.confirmation_required [
  | none ↦ is_one_of confirm_required_actions action
  | some required ↦ required
]

unfoldable pub initial_status : TaskCreate → Bool → Status
initial_status data_in confirm_required =
    if str_eq data_in.schedule_type "CRON" || confirm_required then created else pending

-- What follows the lookup of the idempotency key.
unfoldable pub create_new_task : TaskCreate → ℕ → Option String → Action Session OpsTask
unfolding normalize_action validate_servers validate_service_whitelist new_task needs_confirmation
    initial_status utcnow
create_new_task data_in creator_id key = do
  action ← normalize_action data_in
  servers ← validate_servers data_in.server_ids
  validate_service_whitelist servers data_in.service_name action
  let confirm_required = needs_confirmation data_in action
  let status = initial_status data_in confirm_required
  now ← utcnow
  created_at ← utcnow
  task ←
      Tasks.create (new_task data_in action status creator_id key confirm_required now created_at)
  targets ← Targets.create_targets task.id (map (λ s. s.id) servers)
  if str_eq data_in.schedule_type "ONCE"
      then (do Executions.create_executions task.id targets; pure task)
      else pure task

unfoldable pub create_task : TaskCreate → ℕ → Option String → Action Session OpsTask
unfolding create_new_task
create_task data_in creator_id key s =
    if is_given key
    then elim (Tasks.get_by_idempotency_key (or_else key "") s) [
      | none ↦ create_new_task data_in creator_id key s
      | some existing ↦ ok (existing, s)
    ]
    else create_new_task data_in creator_id key s

unfoldable pub confirm_task : (task_id operator_id : ℕ) → Action Session OpsTask
unfolding get_task_entity utcnow
confirm_task task_id operator_id = do
  task ← get_task_entity task_id
  raise_if (not (is_created task.status)) (app bad_request)
  now ← utcnow
  save_task
      (record task { status = pending; confirmed_by = some operator_id; confirmed_at = some now })

-- One round of the loop of `cancel_task`.
unfoldable pub cancel_execution : OpsTaskExecution → Action Session (Unit {0})
cancel_execution e =
    if is_pending e.status
    then (do Executions.finish e cancelled none none (some (text "任务被取消")) none; pure tt)
    else pure tt

unfoldable pub cancel_task : ℕ → Action Session OpsTask
unfolding get_task_entity cancel_execution aggregate_task_status
cancel_task task_id = do
  task ← get_task_entity task_id
  raise_if (is_terminal task.status) (app bad_request)
  executions ← gets (Executions.list_by_task task.id)
  for_each executions cancel_execution
  aggregate_task_status task
