-- ===== src/Protocol/Requests.antt =====
-- backend/app/schemas/agent.py, as far as the services read it. Percentages and loads are integers
-- of millionths.
use ops_monitor.Common.Int.{ℤ}
use ops_monitor.Common.{ℕ, String, Option, List}

-- A `datetime`, in microseconds since the epoch: without a time zone, what its fields say; with
-- one, the instant and the offset of the zone.
pub data DateTime : Type 0 where
  naive : ℕ → DateTime
  aware : (instant : ℕ) → (offset : ℤ) → DateTime

pub record RegisterRequest : Type 0 where
  pub server_code : String
  pub token : String
  pub hostname : String
  pub os_name : Option String
  pub os_version : Option String
  pub kernel_version : Option String
  pub architecture : Option String
  pub cpu_model : Option String
  pub cpu_cores : Option ℕ
  pub memory_total_bytes : Option ℕ
  pub disk_total_bytes : Option ℕ
  pub agent_version : Option String
  pub signing_public_key : Option String

pub record HeartbeatRequest : Type 0 where
  pub server_id : Option ℤ
  pub agent_version : Option String
  pub timestamp : Option DateTime

pub record MetricsRequest : Type 0 where
  pub server_id : Option ℤ
  pub timestamp : DateTime
  pub cpu_usage : Option ℤ
  pub memory_usage : Option ℤ
  pub memory_used_bytes : Option ℕ
  pub disk_usage : Option ℤ
  pub network_in_bytes : Option ℕ
  pub network_out_bytes : Option ℕ
  pub load_1m : Option ℤ
  pub load_5m : Option ℤ
  pub load_15m : Option ℤ
  pub tcp_connections : Option ℕ
  pub uptime_seconds : Option ℕ

pub record DiskAsset : Type 0 where
  pub device_name : String
  pub mount_point : Option String
  pub filesystem : Option String
  pub total_bytes : Option ℕ

pub record NetworkAsset : Type 0 where
  pub interface_name : String
  pub mac_address : Option String
  pub ip_address : Option String

pub record AssetsRequest : Type 0 where
  pub server_id : Option ℤ
  pub disks : List DiskAsset
  pub networks : List NetworkAsset

pub record ServiceStatus : Type 0 where
  pub service_name : String
  pub current_status : String

pub record ServicesRequest : Type 0 where
  pub server_id : Option ℤ
  pub services : List ServiceStatus
