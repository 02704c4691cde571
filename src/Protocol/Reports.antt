-- ===== src/Protocol/Reports.antt =====
-- The outcomes of the reports of agents: backend/app/services/agent_service.py.
use ops_monitor.Protocol.Model.{disk_entity}
use ops_monitor.Protocol.Networks.{
  network_facts, expected_network, sync_networks-expected, sync_networks-IsTable,
}
use ops_monitor.Protocol.Services.{service_facts, merged_items, items-IsSynced}
use ops_monitor.Protocol.Disks.{disk_facts, expected_disk, sync_disks-expected, sync_disks-IsTable}
use ops_monitor.Exceptions.{app, agent_unauthorized}
use ops_monitor.Agents.Session.{read_clock}
use ops_monitor.Common.Action.{ok, err}
use ops_monitor.Common.Table.Laws.{IsTable}
use ops_monitor.Protocol.Service.{
  sync_assets, heartbeat, assert_server_match, ingest_metrics, sync_services, sync_disks,
  sync_networks,
}
use ops_monitor.Protocol.Requests.{AssetsRequest, ServicesRequest, HeartbeatRequest, MetricsRequest}
use ops_monitor.Common.Int.{ℤ, pos, negsuc}
use ops_monitor.Protocol.Session.{Session, utcnow}
use ops_monitor.Common.{Option, ℕ, ◌≡◌, some, none, String, ◌⊎◌, ◌≢◌, suc, inl, inr, arith, refl}
use ops_monitor.Servers.{OpsServer, service_entity}
use ops_monitor.Protocol.Model.{disk_entity, network_entity}
use ops_monitor.Servers.{service_entity}

-- A body that names no server, or the server of the token.
abbrev pub IsFor : OpsServer → Option ℤ → Type 0
IsFor server id = (id ≡ none) ⊎ (id ≡ some (pos server.id))

-- A body that names another server.
abbrev pub IsForOther : OpsServer → Option ℤ → Type 0
IsForOther server none = ⊥
IsForOther server (some (pos n)) = n ≢ server.id
IsForOther server (some (negsuc n)) = Unit

module _ {Cache : Type 0} (server : OpsServer) (s : Session Cache) where
  pub matches : (id : Option ℤ) → IsFor server id → assert_server_match server id s ≡ ok (tt, s)
  matches id (inl n) = rw n refl
  matches id (inr q) = rw q (ground arith)

  differs :
      (id : Option ℤ)
      → IsForOther server id
      → assert_server_match server id s ≡ err (app agent_unauthorized)
  differs none h = absurd h
  differs (some (pos n)) h = ground arith
  differs (some (negsuc n)) h = ground arith

  -- What a synchronisation of assets does.
  pub record IsAssetSync (body : AssetsRequest) (s' : Session Cache) : Type 0 where
    pub runs :
        sync_assets server body s ≡ ok (record { server_id = server.id; at = s.agents.clock 0 }, s')
    pub disks :
        (server_id : ℕ) (device_name : String) (mount_point : Option String)
        → disk_facts server_id device_name mount_point s'.disks
          ≡ expected_disk server.id body.disks server_id device_name mount_point
              (disk_facts server_id device_name mount_point s.disks)
    pub networks :
        (server_id : ℕ) (interface_name : String)
        → network_facts server_id interface_name s'.networks
          ≡ expected_network server.id body.networks server_id interface_name
              (network_facts server_id interface_name s.networks)
    pub tables : IsTable s'.disks × IsTable s'.networks
    pub services : s'.services ≡ s.services

  -- A report of assets that is for the server of its token is answered, and the inventory then says
  -- of every disk and network of every server what is expected from the report and from what it said
  -- before; the tables stay well formed and the services untouched.
  pub sync_assets-IsAssetSync :
      (body : AssetsRequest)
      → IsFor server body.server_id
      → IsTable s.disks
      → IsTable s.networks
      → (s' : Session Cache) × IsAssetSync body s'
  unfolding sync_assets utcnow read_clock
  sync_assets-IsAssetSync body m wd wn = (
    record s {
      agents = record s.agents { clock = λ n. s.agents.clock (suc n) };
      disks = sync_disks server.id body.disks s.disks;
      networks = sync_networks server.id body.networks s.networks;
    },
    record {
      runs = rw (matches body.server_id m) refl;
      disks = λ i d p. sync_disks-expected server.id body.disks s.disks wd i d p;
      networks = λ i n. sync_networks-expected server.id body.networks s.networks wn i n;
      tables = (
        sync_disks-IsTable server.id body.disks s.disks wd 0 "" none,
        sync_networks-IsTable server.id body.networks s.networks wn 0 "",
      );
      services = refl;
    },
  )

  -- What a synchronisation of services does.
  pub record IsServiceSync (body : ServicesRequest) (s' : Session Cache) : Type 0 where
    pub at : ℕ
    pub runs : sync_services server body s ≡ ok (record { server_id = server.id; at = at }, s')
    pub table : IsTable s'.services
    pub assets : (s'.disks ≡ s.disks) × (s'.networks ≡ s.networks)

  -- A report of services that is for the server of its token is answered, and every service of every
  -- server then has the state that the report gives it last, or its old one if the report does not
  -- list it or is of another server; a service that was not known is on the whitelist, and no other
  -- entry of the whitelist changes.
  pub sync_services-IsServiceSync :
      (body : ServicesRequest)
      → IsFor server body.server_id
      → IsTable s.services
      → (server_id : ℕ) (service_name : String)
      → (s' : Session Cache) × IsServiceSync body s'
        × (service_facts server_id service_name s'.services
            ≡ merged_items server.id server_id service_name body.services
                (service_facts server_id service_name s.services))
  unfolding sync_services utcnow read_clock
  sync_services-IsServiceSync body m w i n =
      let r = items-IsSynced server.id i n body.services s w in
      let t : Session Cache = r.0 in
      (
        record t { agents = record t.agents { clock = λ n. t.agents.clock (suc n) } },
        record {
          at = t.agents.clock 0;
          runs = rw (matches body.server_id m, r.1.runs) refl;
          table = r.1.table;
          assets = r.1.assets;
        },
        r.1.facts,
      )

  -- The four kinds of report that name another server than that of their token are refused, and so
  -- leave every table as it was.
  pub refuses_others :
      (id : Option ℤ)
      → IsForOther server id
      → ((body : HeartbeatRequest) (ip : Option String)
          → body.server_id ≡ id
          → heartbeat server body ip s ≡ err (app agent_unauthorized))
        × ((body : MetricsRequest)
            → body.server_id ≡ id
            → ingest_metrics server body s ≡ err (app agent_unauthorized))
        × ((body : AssetsRequest)
            → body.server_id ≡ id
            → sync_assets server body s ≡ err (app agent_unauthorized))
        × ((body : ServicesRequest)
            → body.server_id ≡ id
            → sync_services server body s ≡ err (app agent_unauthorized))
  unfolding heartbeat ingest_metrics sync_assets sync_services
  refuses_others id h = (
    λ body ip q. rw (q, differs id h) refl,
    λ body q. rw (q, differs id h) refl,
    λ body q. rw (q, differs id h) refl,
    λ body q. rw (q, differs id h) refl,
  )
