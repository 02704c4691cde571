-- ===== src/Protocol/Tests.antt =====
-- The theorems on the reports of agents, at concrete reports.
use ops_monitor.Protocol.Liveness.Counts.{refresh-counts}
use ops_monitor.Protocol.Liveness.{after, by_age, heartbeat_then_refresh}
use ops_monitor.Exceptions.{app, agent_unauthorized, invalid_timestamp}
use ops_monitor.Common.Action.{err, ok}
use ops_monitor.Protocol.Networks.Again.{sync_networks_again, network_key}
use ops_monitor.Protocol.Disks.Again.{sync_disks_again, disk_key}
use ops_monitor.Servers.Examples.{web}
use ops_monitor.Protocol.Reports.{
  IsAssetSync, IsServiceSync, sync_assets-IsAssetSync, sync_services-IsServiceSync, refuses_others,
}
use ops_monitor.Common.Int.{pos}
use ops_monitor.Protocol.Examples.{blank}
use ops_monitor.Protocol.Assets.Inventory.{merged}
use ops_monitor.Protocol.Service.{
  sync_disks, sync_networks, ingest_metrics, heartbeat, new_metric, sync_assets, sync_services,
}
use ops_monitor.Agents.Examples.{Keys, at_start}
use ops_monitor.Protocol.Statuses.{get_status_counts, refresh_agent_statuses}
use ops_monitor.Protocol.Metrics.{IsNear, ingest_metrics-IsNear}
use ops_monitor.Protocol.Services.{service_facts}
use ops_monitor.Protocol.Networks.{network_facts}
use ops_monitor.Protocol.Disks.{disk_facts}
use ops_monitor.Protocol.Requests.{
  AssetsRequest, ServicesRequest, HeartbeatRequest, MetricsRequest, DiskAsset, NetworkAsset, aware,
}
use ops_monitor.Common.{
  List, ℕ, arith, some, none, Option, ◌∷◌, ◌≡◌, String, [], length, refl, inr, inl, ◌==◌, true,
  false, map,
}
use ops_monitor.Protocol.Session.{Session}
use ops_monitor.Common.Table.Laws.{IsTable}
use ops_monitor.Common.Table.{Table}
use ops_monitor.Common.Table
use ops_monitor.Exceptions.{integrity_error}
use ops_monitor.Protocol.Statuses.{breaks_address}
use ops_monitor.Common.Action.{err}
use ops_monitor.Servers.{server_entity}
use ops_monitor.Protocol.Model.{disk_entity, network_entity, OpsServerDisk, OpsServerNetwork}

-- A disk that is recorded without its size.
abbrev one_disk : Table OpsServerDisk
one_disk = record {
  rows =
      record {
        id = 1;
        server_id = 1;
        device_name = "sda";
        mount_point = some "/";
        filesystem = some "ext4";
        total_bytes = none;
        status = 1;
      }
      ∷ [];
  next_id = 2;
}

one_disk-IsTable : IsTable one_disk
one_disk-IsTable = record { below = (omega arith, tt); distinct = (tt, tt) }

abbrev start : Session Keys
start = record (blank at_start) { disks = one_disk }

abbrev two_disks : List DiskAsset
two_disks =
    record {
      device_name = "sda";
      mount_point = some "/";
      filesystem = none;
      total_bytes = some 100;
    }
    ∷ record {
      device_name = "sdb";
      mount_point = none;
      filesystem = some "xfs";
      total_bytes = none;
    }
    ∷ []

abbrev one_network : List NetworkAsset
one_network =
    record { interface_name = "eth0"; mac_address = none; ip_address = some "10.0.0.5" } ∷ []

abbrev assets : AssetsRequest
assets = record { server_id = some (pos 1); disks = two_disks; networks = one_network }

abbrev services : ServicesRequest
services = record {
  server_id = none;
  services = record { service_name = "nginx"; current_status = "RUNNING" } ∷ [];
}

empty_networks-IsTable : IsTable {A = OpsServerNetwork} Table.empty
empty_networks-IsTable = record { below = tt; distinct = tt }

sync_assets-IsAssetSync_example : (s' : Session Keys) × IsAssetSync web start assets s'
sync_assets-IsAssetSync_example =
    sync_assets-IsAssetSync web start assets (inr refl) one_disk-IsTable empty_networks-IsTable

-- The size of the disk is added, its file system stays.
sync_disks_runs :
    disk_facts 1 "sda" (some "/") (sync_disks 1 two_disks one_disk) ≡ some (some "ext4", some 100)
unfolding disk_facts sync_disks Table.list_all Table.save Table.create
sync_disks_runs = refl

sync_disks_again_example :
    (map disk_key (sync_disks 1 two_disks (sync_disks 1 two_disks one_disk)).rows
      ≡ map disk_key (sync_disks 1 two_disks one_disk).rows)
    × ((server_id : ℕ) (d : String) (m : Option String)
        → disk_facts server_id d m (sync_disks 1 two_disks (sync_disks 1 two_disks one_disk))
          ≡ disk_facts server_id d m (sync_disks 1 two_disks one_disk))
sync_disks_again_example = sync_disks_again 1 two_disks one_disk one_disk-IsTable

sync_networks_again_example :
    (map network_key (sync_networks 1 one_network (sync_networks 1 one_network Table.empty)).rows
      ≡ map network_key (sync_networks 1 one_network Table.empty).rows)
    × ((server_id : ℕ) (i : String)
        → network_facts server_id i
            (sync_networks 1 one_network (sync_networks 1 one_network Table.empty))
          ≡ network_facts server_id i (sync_networks 1 one_network Table.empty))
sync_networks_again_example = sync_networks_again 1 one_network Table.empty empty_networks-IsTable

sync_services-IsServiceSync_example :
    (s' : Session Keys) × IsServiceSync web start services s'
    × (service_facts 1 "nginx" s'.services ≡ some (some "RUNNING", 1))
unfolding service_facts merged
sync_services-IsServiceSync_example =
    sync_services-IsServiceSync web start services (inl refl) (record { below = tt; distinct = tt })
      1 "nginx"

refuses_others_example :
    ((body : HeartbeatRequest) (ip : Option String)
      → body.server_id ≡ some (pos 2)
      → heartbeat web body ip start ≡ err (app agent_unauthorized))
    × ((body : MetricsRequest)
        → body.server_id ≡ some (pos 2)
        → ingest_metrics web body start ≡ err (app agent_unauthorized))
    × ((body : AssetsRequest)
        → body.server_id ≡ some (pos 2)
        → sync_assets web body start ≡ err (app agent_unauthorized))
    × ((body : ServicesRequest)
        → body.server_id ≡ some (pos 2)
        → sync_services web body start ≡ err (app agent_unauthorized))
refuses_others_example = refuses_others web start (some (pos 2)) (omega arith)

abbrev sample : MetricsRequest
sample = record {
  server_id = none;
  timestamp = aware 999000000 (pos 28800);
  cpu_usage = some (pos 12000000);
  memory_usage = none;
  memory_used_bytes = none;
  disk_usage = none;
  network_in_bytes = none;
  network_out_bytes = none;
  load_1m = none;
  load_5m = none;
  load_15m = none;
  tcp_connections = none;
  uptime_seconds = none;
}

ingest_metrics-IsNear_example :
    (IsNear 1000000000 999000000
      → (at : ℕ) × (s' : Session Keys) × (ingest_metrics web sample start
          ≡ ok (record { server_id = 1; at = at }, s'))
        × (s'.metrics.rows ≡ new_metric 1 999000000 sample 1 ∷ []))
    × (¬ (IsNear 1000000000 999000000)
        → ingest_metrics web sample start ≡ err (app invalid_timestamp))
ingest_metrics-IsNear_example = ingest_metrics-IsNear web sample start (inl refl)

abbrev beat : HeartbeatRequest
beat = record { server_id = some (pos 1); agent_version = some "1.0"; timestamp = none }

heartbeat_then_refresh_example :
    (breaks_address (after web beat none start) start.agents.servers ≡ true
      → heartbeat web beat none start ≡ err integrity_error)
    × (breaks_address (after web beat none start) start.agents.servers ≡ false
        → (at : ℕ) × (s' : Session Keys) × (heartbeat web beat none start
            ≡ ok (record { server_id = 1; at = at }, s'))
          × ((now : ℕ)
              → Table.get 1 (refresh_agent_statuses now s'.agents.servers).1
                ≡ some
                    (record (after web beat none start) { agent_status = by_age now 1000000000 })))
unfolding Table.get
heartbeat_then_refresh_example = heartbeat_then_refresh web beat none start (inr refl) refl refl

refresh-counts_example :
    ((get_status_counts (refresh_agent_statuses 5 at_start.servers).1).unknown ≡ 0)
    × ((get_status_counts (refresh_agent_statuses 5 at_start.servers).1).total
        ≡ (refresh_agent_statuses 5 at_start.servers).0)
    × ((refresh_agent_statuses 5 at_start.servers).0
        ≡ length (Table.list_all (λ s. s.status == 1) at_start.servers))
refresh-counts_example = refresh-counts 5 at_start.servers
