-- ===== src/Servers/Examples.antt =====
-- A server for the tests.
use ops_monitor.Common.{none, some}
use ops_monitor.Servers.{OpsServer, online}

abbrev pub web : OpsServer
web = record {
  id = 1;
  server_code = "web";
  hostname = "web-1";
  ip_address = "10.0.0.5";
  ssh_port = 22;
  os_name = none;
  os_version = none;
  kernel_version = none;
  architecture = none;
  cpu_model = none;
  cpu_cores = some 4;
  memory_total_bytes = none;
  disk_total_bytes = none;
  agent_version = none;
  agent_status = online;
  last_heartbeat_at = some 0;
  registered_at = some 0;
  status = 1;
  remark = none;
  created_by = none;
  deleted_at = none;
}
