-- ===== src/Tasks/Model.antt =====
-- backend/app/models/task.py. `updated_at`, which the database maintains and no code reads, and
-- the relationships, which are lookups by key, are left out.
use ops_monitor.Common.{ℕ, String, Option, Bool, true, false}
use ops_monitor.Common.Int.{ℤ}
use ops_monitor.Common.Table.{Entity}

-- The values of `ops_task.status`; an execution has all but `created`.
pub data Status : Type 0 where
  created pending running success failed timeout cancelled retrying dead : Status

-- `status in ("SUCCESS", "FAILED", "TIMEOUT", "CANCELLED", "DEAD")`
abbrev pub is_terminal : Status → Bool
is_terminal success = true
is_terminal failed = true
is_terminal timeout = true
is_terminal cancelled = true
is_terminal dead = true
is_terminal _ = false

abbrev pub is_created : Status → Bool
is_created created = true
is_created _ = false

abbrev pub is_pending : Status → Bool
is_pending pending = true
is_pending _ = false

abbrev pub is_running : Status → Bool
is_running running = true
is_running _ = false

abbrev pub is_success : Status → Bool
is_success success = true
is_success _ = false

abbrev pub is_cancelled : Status → Bool
is_cancelled cancelled = true
is_cancelled _ = false

abbrev pub is_retrying : Status → Bool
is_retrying retrying = true
is_retrying _ = false

abbrev pub is_dead : Status → Bool
is_dead dead = true
is_dead _ = false

-- `s in ("FAILED", "TIMEOUT")`
abbrev pub is_failed_or_timeout : Status → Bool
is_failed_or_timeout failed = true
is_failed_or_timeout timeout = true
is_failed_or_timeout _ = false

-- A text column; a message that the code formats is kept as its parts.
pub data Message : Type 0 where
  text : String → Message
  timed_out : (timeout_seconds : ℕ) → Message

-- Times are microseconds since the epoch.
pub record OpsTask : Type 0 where
  pub id : ℕ
  pub task_name : String
  pub task_type : String
  pub action : String
  pub service_name : Option String
  pub schedule_type : String
  pub cron_expression : Option String
  pub status : Status
  pub created_by : ℕ
  pub started_at : Option ℕ
  pub finished_at : Option ℕ
  pub timeout_seconds : ℕ
  pub max_attempts : ℕ
  pub attempt : ℕ
  pub deadline_at : Option ℕ
  pub idempotency_key : Option String
  pub confirmation_required : ℕ
  pub confirmed_by : Option ℕ
  pub confirmed_at : Option ℕ
  pub created_at : Option ℕ

instance abbrev pub task_entity : Entity OpsTask
task_entity = record { id_of = λ t. t.id; is_deleted = λ _. false }

pub record OpsTaskTarget : Type 0 where
  pub id : ℕ
  pub task_id : ℕ
  pub server_id : ℕ
  pub target_status : Status

instance abbrev pub target_entity : Entity OpsTaskTarget
target_entity = record { id_of = λ t. t.id; is_deleted = λ _. false }

pub record OpsTaskExecution : Type 0 where
  pub id : ℕ
  pub task_id : ℕ
  pub target_id : ℕ
  pub server_id : ℕ
  pub status : Status
  pub attempt : ℕ
  pub next_retry_at : Option ℕ
  pub error_type : Option String
  pub exit_code : Option ℤ
  pub result_text : Option String
  pub error_message : Option Message
  pub started_at : Option ℕ
  pub finished_at : Option ℕ
  pub duration_ms : Option ℤ

instance abbrev pub execution_entity : Entity OpsTaskExecution
execution_entity = record { id_of = λ e. e.id; is_deleted = λ _. false }

pub data LogLevel : Type 0 where
  info error : LogLevel

-- The log messages: a text as it is, and those that `f"…"` formats by their parts.
pub data LogContent : Type 0 where
  text : Message → LogContent
  retry_planned : (attempt : ℕ) → (error_type : String) → (next_retry_at : ℕ) → LogContent
  not_retryable : (error_type : String) → LogContent
  attempt_created : (attempt : ℕ) → LogContent

pub record OpsTaskLog : Type 0 where
  pub id : ℕ
  pub execution_id : ℕ
  pub log_level : LogLevel
  pub log_content : LogContent

instance abbrev pub log_entity : Entity OpsTaskLog
log_entity = record { id_of = λ l. l.id; is_deleted = λ _. false }
