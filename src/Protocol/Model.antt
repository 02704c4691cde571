-- ===== src/Protocol/Model.antt =====
-- The rows of `ops_server_disk`, `ops_server_network` and `ops_agent_heartbeat` of
-- backend/app/models/server.py, less the columns that the database fills in.
use ops_monitor.Common.Table.{Entity}
use ops_monitor.Common.{ℕ, String, Option, false}

pub record OpsServerDisk : Type 0 where
  pub id : ℕ
  pub server_id : ℕ
  pub device_name : String
  pub mount_point : Option String
  pub filesystem : Option String
  pub total_bytes : Option ℕ
  pub status : ℕ

instance abbrev pub disk_entity : Entity OpsServerDisk
disk_entity = record { id_of = λ d. d.id; is_deleted = λ _. false }

pub record OpsServerNetwork : Type 0 where
  pub id : ℕ
  pub server_id : ℕ
  pub interface_name : String
  pub mac_address : Option String
  pub ip_address : Option String
  pub status : ℕ

instance abbrev pub network_entity : Entity OpsServerNetwork
network_entity = record { id_of = λ n. n.id; is_deleted = λ _. false }

pub record OpsAgentHeartbeat : Type 0 where
  pub id : ℕ
  pub server_id : ℕ
  pub agent_version : Option String
  pub ip_address : Option String
  pub collected_at : ℕ

instance abbrev pub heartbeat_entity : Entity OpsAgentHeartbeat
heartbeat_entity = record { id_of = λ h. h.id; is_deleted = λ _. false }
