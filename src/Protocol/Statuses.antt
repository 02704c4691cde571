-- ===== src/Protocol/Statuses.antt =====
-- `ServerRepository` of backend/app/repositories/server_repository.py: the heartbeat of a server and
-- the status that follows from it.

use ops_monitor.Protocol.Model.{heartbeat_entity}
use ops_monitor.Tasks.Retry.{text_or, is_given}
use ops_monitor.Common.Action.{◌>>=◌, pure, modify}
use ops_monitor.Exceptions.{integrity_error}
use ops_monitor.Common.Action.{Action, ok, err}
use ops_monitor.Protocol.Session.{utcnow, Session}
use ops_monitor.Protocol.Requests.{RegisterRequest}
use ops_monitor.Common.Table.{Table}
use ops_monitor.Servers.{AgentStatus, OpsServer, offline, online, warning, unknown, server_entity}
use ops_monitor.Common.{
  ℕ, Option, Bool, if◌then◌else◌, length, List, String, some, true, ◌==◌, leb, filter, none, ◌&&◌,
  any, str_eq, ◌-◌, map, false, not, ◌*◌, ◌+◌, is_some,
}
use ops_monitor.Common.Table

-- The four counts, and their sum.
pub record StatusCounts : Type 0 where
  pub online : ℕ
  pub warning : ℕ
  pub offline : ℕ
  pub unknown : ℕ
  pub total : ℕ

abbrev pub same_agent_status : AgentStatus → AgentStatus → Bool
same_agent_status online online = true
same_agent_status warning warning = true
same_agent_status offline offline = true
same_agent_status unknown unknown = true
same_agent_status _ _ = false

-- `status == 1 AND deleted_at IS NULL`
abbrev pub is_enabled : OpsServer → Bool
is_enabled server = server.status == 1 && not (is_some server.deleted_at)

-- The CASE of the update. A comparison with NULL is not true, and an interval before the epoch
-- begins, where `-` stops at 0, is before every heartbeat too.
unfoldable pub status_at : (now : ℕ) → Option ℕ → AgentStatus
status_at now none = offline
status_at now (some at) =
    if leb (now - 30 * 1000000) at
    then online
    else if leb (now - 90 * 1000000) at
    then warning
    else offline

abbrev pub refresh_status : ℕ → OpsServer → OpsServer
refresh_status now server =
    if is_enabled server
    then record server { agent_status = status_at now server.last_heartbeat_at }
    else server

-- The number of rows that the condition of the update matches, and the rows after it.
unfoldable pub refresh_agent_statuses : (now : ℕ) → Table OpsServer → ℕ × Table OpsServer
unfolding status_at
refresh_agent_statuses now t =
    (length (filter is_enabled t.rows), record t { rows = map (refresh_status now) t.rows })

abbrev pub count_status : AgentStatus → List OpsServer → ℕ
count_status status servers =
    length (filter (λ s. is_enabled s && same_agent_status status s.agent_status) servers)

unfoldable pub get_status_counts : Table OpsServer → StatusCounts
get_status_counts t =
    let onlines = count_status online t.rows in
    let warnings = count_status warning t.rows in
    let offlines = count_status offline t.rows in
    let unknowns = count_status unknown t.rows in
    record {
      online = onlines;
      warning = warnings;
      offline = offlines;
      unknown = unknowns;
      total = onlines + warnings + offlines + unknowns;
    }

-- `setattr` of a field that is not None.
abbrev pub given_or {ℓ} : {A : Type ℓ} → Option A → Option A → Option A
given_or none old = old
given_or (some a) old = some a

-- The fields that a registration writes; the host name of the request is never None.
abbrev pub with_system_info : RegisterRequest → OpsServer → OpsServer
with_system_info info server = record server {
  hostname = info.hostname;
  os_name = given_or info.os_name server.os_name;
  os_version = given_or info.os_version server.os_version;
  kernel_version = given_or info.kernel_version server.kernel_version;
  architecture = given_or info.architecture server.architecture;
  cpu_model = given_or info.cpu_model server.cpu_model;
  cpu_cores = given_or info.cpu_cores server.cpu_cores;
  memory_total_bytes = given_or info.memory_total_bytes server.memory_total_bytes;
  disk_total_bytes = given_or info.disk_total_bytes server.disk_total_bytes;
  agent_version = given_or info.agent_version server.agent_version;
}

-- The unique key `uk_ops_server_ip_port`, which counts deleted rows too.
abbrev pub breaks_address : OpsServer → Table OpsServer → Bool
breaks_address server t =
    any
      (λ v.
        not (v.id == server.id)
        && (v.ssh_port == server.ssh_port && str_eq v.ip_address server.ip_address))
      t.rows

-- A changed server, flushed.
abbrev pub save_server : {Cache : Type 0} → OpsServer → Action (Session Cache) OpsServer
save_server server s =
    if breaks_address server s.agents.servers
    then err integrity_error
    else ok (
      server,
      record s { agents = record s.agents { servers = Table.save server s.agents.servers } },
    )

module _ {Cache : Type 0} where
  unfoldable pub register_server : OpsServer → RegisterRequest → Action (Session Cache) OpsServer
  unfolding utcnow
  register_server server info = do
    registered ← utcnow
    heard ← utcnow
    save_server (record (with_system_info info server) {
      registered_at = some registered;
      last_heartbeat_at = some heard;
      agent_status = online;
    })

  unfoldable pub update_last_heartbeat :
      OpsServer → (ip agent_version : Option String) → Action (Session Cache) OpsServer
  unfolding utcnow
  update_last_heartbeat server ip agent_version = do
    heard ← utcnow
    save_server (record server {
      last_heartbeat_at = some heard;
      ip_address = text_or ip server.ip_address;
      agent_version = if is_given agent_version then agent_version else server.agent_version;
      agent_status = online;
    })

  -- `HeartbeatRepository.record`
  unfoldable pub record_heartbeat :
      (server_id : ℕ)
      → (agent_version ip_address : Option String) → (collected_at : Option ℕ)
      → Action (Session Cache) (Unit {0})
  unfolding utcnow
  record_heartbeat server_id agent_version ip_address collected_at = do
    at ← elim collected_at as (λ _. Action (Session Cache) ℕ) [ none ↦ utcnow | some at ↦ pure at ]
    modify (λ s. record s {
      heartbeats =
          (Table.create
            (λ id. record {
              id = id;
              server_id = server_id;
              agent_version = agent_version;
              ip_address = ip_address;
              collected_at = at;
            })
            s.heartbeats).1;
    })
