-- ===== src/Alerts/Model.antt =====
-- backend/app/models/alert.py and `MonitorServerMetric` of backend/app/models/metric.py. A
-- `Numeric` or float value is an integer of millionths, and a time microseconds since the epoch. The
-- columns that the database fills in and no code reads are left out.
use ops_monitor.Common.Int.{ℤ}
use ops_monitor.Common.{ℕ, false, Bool, String, Option, true, ◌==◌, ◌&&◌, str_eq}
use ops_monitor.Common.Table.{Entity}

pub record AlertRule : Type 0 where
  pub id : ℕ
  pub rule_name : String
  pub metric_type : String
  pub target_type : String
  pub severity : String
  pub operator : String
  pub threshold : Option ℤ
  pub duration_seconds : ℕ
  pub recovery_threshold : Option ℤ
  pub enabled : ℕ
  pub description : Option String
  pub created_by : Option ℕ

instance abbrev pub rule_entity : Entity AlertRule
rule_entity = record { id_of = λ r. r.id; is_deleted = λ _. false }

pub data AlertStatus : Type 0 where
  pending firing acknowledged resolved : AlertStatus

-- The generated column `is_active`: not NULL in the three states before RESOLVED.
abbrev pub is_active : AlertStatus → Bool
is_active resolved = false
is_active _ = true

-- `alert_key` is the text `rule:server:metric`. It is kept as its parts, which it determines: the
-- numbers hold no colon.
pub record AlertKey : Type 0 where
  pub rule_id : ℕ
  pub server_id : ℕ
  pub metric_type : String

abbrev pub same_key : AlertKey → AlertKey → Bool
same_key a b =
    a.rule_id == b.rule_id && a.server_id == b.server_id && str_eq a.metric_type b.metric_type

-- The message of an event, by the parts that it is formatted from.
pub record Triggered : Type 0 where
  pub rule_name : String
  pub value : ℤ
  pub threshold : Option ℤ

pub record AlertEvent : Type 0 where
  pub id : ℕ
  pub rule_id : ℕ
  pub server_id : Option ℕ
  pub resource_type : String
  pub resource_id : Option ℕ
  pub alert_key : AlertKey
  pub metric_type : String
  pub severity : String
  pub status : AlertStatus
  pub first_fired_at : Option ℕ
  pub last_fired_at : Option ℕ
  pub acknowledged_by : Option ℕ
  pub acknowledged_at : Option ℕ
  pub resolved_at : Option ℕ
  pub current_value : Option ℤ
  pub threshold_value : Option ℤ
  pub message : Triggered

instance abbrev pub event_entity : Entity AlertEvent
event_entity = record { id_of = λ e. e.id; is_deleted = λ _. false }

pub record AlertEventLog : Type 0 where
  pub id : ℕ
  pub event_id : ℕ
  pub old_status : Option AlertStatus
  pub new_status : AlertStatus
  pub current_value : Option ℤ
  pub message : String
  pub operator_id : Option ℕ

instance abbrev pub event_log_entity : Entity AlertEventLog
event_log_entity = record { id_of = λ l. l.id; is_deleted = λ _. false }

pub record MonitorServerMetric : Type 0 where
  pub id : ℕ
  pub server_id : ℕ
  pub collected_at : ℕ
  pub cpu_usage : Option ℤ
  pub memory_usage : Option ℤ
  pub memory_used_bytes : Option ℕ
  pub disk_usage : Option ℤ
  pub network_in_bytes : Option ℕ
  pub network_out_bytes : Option ℕ
  pub load_1m : Option ℤ
  pub load_5m : Option ℤ
  pub load_15m : Option ℤ
  pub tcp_connections : Option ℕ
  pub uptime_seconds : Option ℕ

instance abbrev pub metric_entity : Entity MonitorServerMetric
metric_entity = record { id_of = λ m. m.id; is_deleted = λ _. false }
