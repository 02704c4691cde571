-- ===== src/Protocol/Service.antt =====
-- backend/app/services/agent_service.py: `AgentService`.
use ops_monitor.Protocol.Model.{network_entity}
use ops_monitor.Common.Action.{◌>>◌, modify}
use ops_monitor.Common.Action.{◌>>=◌}
use ops_monitor.Exceptions.{app, agent_unauthorized, invalid_timestamp}
use ops_monitor.Common.Table
use ops_monitor.Common.Int.{ℤ, leb_ℤ, pos}
use ops_monitor.Protocol.Model.{OpsServerNetwork, OpsServerDisk}
use ops_monitor.Common.Table.{Table}
use ops_monitor.Alerts.Model.{MonitorServerMetric, metric_entity}
use ops_monitor.Protocol.Statuses.{update_last_heartbeat, record_heartbeat}
use ops_monitor.Common.Action.{Action, for_each, pure, raise_if}
use ops_monitor.Protocol.Session.{utcnow, Session}
use ops_monitor.Servers.{OpsServer}
use ops_monitor.Protocol.Assets.{
  upsert_disk, delete_missing, upsert_network, delete_each, upsert_status, upsert_each,
}
use ops_monitor.Protocol.Requests.{
  DateTime, MetricsRequest, DiskAsset, NetworkAsset, AssetsRequest, ServiceStatus, naive, aware,
  HeartbeatRequest, ServicesRequest,
}
use ops_monitor.Common.{
  ℕ, List, Option, Bool, ltb, any, ◌==◌, ◌*◌, str_eq, ◌-◌, String, some, ◌||◌, not, ◌&&◌, none,
}

-- `MAX_TIME_SKEW_SECONDS`
abbrev pub max_time_skew_seconds : ℕ
max_time_skew_seconds = 300

-- The dictionary that a report is answered with: the server, and a time.
pub record Receipt : Type 0 where
  pub server_id : ℕ
  pub at : ℕ

abbrev pub normalize_utc : DateTime → ℕ
normalize_utc (naive at) = at
normalize_utc (aware instant _) = instant

abbrev pub new_metric : (server_id collected_at : ℕ) → MetricsRequest → ℕ → MonitorServerMetric
new_metric server_id collected_at body id = record {
  id = id;
  server_id = server_id;
  collected_at = collected_at;
  cpu_usage = body.cpu_usage;
  memory_usage = body.memory_usage;
  memory_used_bytes = body.memory_used_bytes;
  disk_usage = body.disk_usage;
  network_in_bytes = body.network_in_bytes;
  network_out_bytes = body.network_out_bytes;
  load_1m = body.load_1m;
  load_5m = body.load_5m;
  load_15m = body.load_15m;
  tcp_connections = body.tcp_connections;
  uptime_seconds = body.uptime_seconds;
}

-- The disks of a server after a report.
unfoldable pub upsert_disks :
    (server_id : ℕ) → List DiskAsset → Table OpsServerDisk → Table OpsServerDisk
unfolding upsert_disk upsert_each
upsert_disks server_id reports t = upsert_each (upsert_disk server_id) reports t

unfoldable pub sync_disks :
    (server_id : ℕ) → List DiskAsset → Table OpsServerDisk → Table OpsServerDisk
unfolding upsert_disks delete_missing
sync_disks server_id disks t = delete_missing server_id disks (upsert_disks server_id disks t)

-- The networks of a server after a report.
unfoldable pub upsert_networks :
    (server_id : ℕ) → List NetworkAsset → Table OpsServerNetwork → Table OpsServerNetwork
unfolding upsert_network upsert_each
upsert_networks server_id reports t = upsert_each (upsert_network server_id) reports t

-- `network.interface_name not in network_keys`, negated
abbrev pub is_reported : List NetworkAsset → OpsServerNetwork → Bool
is_reported networks n = any (λ a. str_eq n.interface_name a.interface_name) networks

unfoldable pub sync_networks :
    (server_id : ℕ) → List NetworkAsset → Table OpsServerNetwork → Table OpsServerNetwork
unfolding upsert_networks delete_each
sync_networks server_id networks t =
    let upserted = upsert_networks server_id networks t in
    delete_each (is_reported networks) (Table.list_all (λ n. n.server_id == server_id) upserted)
      upserted

-- `abs((now - normalized).total_seconds()) > MAX_TIME_SKEW_SECONDS`
abbrev pub is_skewed : (now at : ℕ) → Bool
is_skewed now at =
    ltb (max_time_skew_seconds * 1000000) (now - at)
    || ltb (max_time_skew_seconds * 1000000) (at - now)

module _ {Cache : Type 0} where
  abbrev pub assert_server_match : OpsServer → Option ℤ → Action (Session Cache) (Unit {0})
  assert_server_match server none = pure tt
  assert_server_match server (some id) =
      raise_if (not (leb_ℤ id (pos server.id) && leb_ℤ (pos server.id) id)) (app agent_unauthorized)

  unfoldable pub validate_timestamp : DateTime → Action (Session Cache) ℕ
  unfolding utcnow
  validate_timestamp collected_at = do
    now ← utcnow
    raise_if (is_skewed now (normalize_utc collected_at)) (app invalid_timestamp)
    pure (normalize_utc collected_at)

  unfoldable pub heartbeat :
      OpsServer → HeartbeatRequest → (ip : Option String) → Action (Session Cache) Receipt
  unfolding utcnow update_last_heartbeat record_heartbeat
  heartbeat server body ip = do
    assert_server_match server body.server_id
    updated ← update_last_heartbeat server ip body.agent_version
    at ← elim body.timestamp as (λ _. Action (Session Cache) ℕ) [
      | none ↦ utcnow
      | some at ↦ pure (normalize_utc at)
    ]
    record_heartbeat updated.id body.agent_version ip (some at)
    received ← utcnow
    pure (record { server_id = updated.id; at = received })

  unfoldable pub ingest_metrics : OpsServer → MetricsRequest → Action (Session Cache) Receipt
  unfolding utcnow validate_timestamp
  ingest_metrics server body = do
    assert_server_match server body.server_id
    collected_at ← validate_timestamp body.timestamp
    modify (λ s. record s {
      metrics = (Table.create (new_metric server.id collected_at body) s.metrics).1;
    })
    recorded ← utcnow
    pure (record { server_id = server.id; at = recorded })

  unfoldable pub sync_assets : OpsServer → AssetsRequest → Action (Session Cache) Receipt
  unfolding utcnow sync_disks sync_networks
  sync_assets server body = do
    assert_server_match server body.server_id
    modify (λ s. record s { disks = sync_disks server.id body.disks s.disks })
    modify (λ s. record s { networks = sync_networks server.id body.networks s.networks })
    synced ← utcnow
    pure (record { server_id = server.id; at = synced })

  abbrev pub sync_service : (server_id : ℕ) → ServiceStatus → Action (Session Cache) (Unit {0})
  sync_service server_id item = do
    now ← utcnow
    modify (λ s. record s { services = upsert_status server_id item now s.services })

  unfoldable pub sync_services : OpsServer → ServicesRequest → Action (Session Cache) Receipt
  unfolding utcnow upsert_status for_each
  sync_services server body = do
    assert_server_match server body.server_id
    for_each body.services (sync_service server.id)
    synced ← utcnow
    pure (record { server_id = server.id; at = synced })
