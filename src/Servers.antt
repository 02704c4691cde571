-- ===== src/Servers.antt =====
-- backend/app/models/server.py: the rows of `ops_server` and `ops_server_service`. Left out are
-- `created_at` and `updated_at`, which the database fills in and no code of the development reads.
pub mod Examples
use ops_monitor.Common.{ℕ, String, Option, false, is_some}
use ops_monitor.Common.Table.{Entity}

pub data AgentStatus : Type 0 where
  online warning offline unknown : AgentStatus

-- Times are microseconds since the epoch.
pub record OpsServer : Type 0 where
  pub id : ℕ
  pub server_code : String
  pub hostname : String
  pub ip_address : String
  pub ssh_port : ℕ
  pub os_name : Option String
  pub os_version : Option String
  pub kernel_version : Option String
  pub architecture : Option String
  pub cpu_model : Option String
  pub cpu_cores : Option ℕ
  pub memory_total_bytes : Option ℕ
  pub disk_total_bytes : Option ℕ
  pub agent_version : Option String
  pub agent_status : AgentStatus
  pub last_heartbeat_at : Option ℕ
  pub registered_at : Option ℕ
  pub status : ℕ
  pub remark : Option String
  pub created_by : Option ℕ
  pub deleted_at : Option ℕ

instance abbrev pub server_entity : Entity OpsServer
server_entity = record { id_of = λ s. s.id; is_deleted = λ s. is_some s.deleted_at }

pub record OpsServerService : Type 0 where
  pub id : ℕ
  pub server_id : ℕ
  pub service_name : String
  pub display_name : Option String
  pub service_type : String
  pub is_whitelisted : ℕ
  pub is_critical : ℕ
  pub current_status : Option String
  pub last_checked_at : Option ℕ
  pub status : ℕ

instance abbrev pub service_entity : Entity OpsServerService
service_entity = record { id_of = λ s. s.id; is_deleted = λ _. false }
