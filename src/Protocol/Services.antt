-- ===== src/Protocol/Services.antt =====
-- What the table of services holds after `sync_services` of backend/app/services/agent_service.py.
use ops_monitor.Common.Table.Laws.{IsTable}
use ops_monitor.Agents.Session.{read_clock}
use ops_monitor.Protocol.Assets.Keys.{and_true}
use ops_monitor.Protocol.Service.{sync_service}
use ops_monitor.Protocol.Session.{Session, utcnow}
use ops_monitor.Common.Action.{for_each, ok}
use ops_monitor.Protocol.Assets.Inventory.{IsReport, merged, view-upsert_each}
use ops_monitor.Protocol.Assets.Upsert.{IsUpsert}
use ops_monitor.Protocol.Assets.{is_service, update_status, new_service, upsert_status, upsert_each}
use ops_monitor.Common.Table.{Table}
use ops_monitor.Servers.{OpsServerService, service_entity}
use ops_monitor.Protocol.Requests.{ServiceStatus}
use ops_monitor.Common.{
  Option, String, ℕ, some, Bool, List, str_eq, find, ◌≡◌, ◌==◌, none, true, ◌&&◌, ==_refl, ==→eq,
  eq_refl, eq_iff, ◌∷◌, suc, refl, [], ◌∙◌, ap,
}
use mathlib.Core.Option

-- The state of a service, and whether tasks may act on it.
abbrev pub ServiceFacts : Type 0
ServiceFacts = Option String × ℕ

-- A report writes the state; a service that is not known yet is put on the whitelist.
abbrev pub merge_service : ServiceStatus → Option ServiceFacts → ServiceFacts
merge_service item none = (some item.current_status, 1)
merge_service item (some v) = (some item.current_status, v.1)

abbrev pub reports_service : (service_name : String) → ServiceStatus → Bool
reports_service service_name item = str_eq item.service_name service_name

abbrev pub service_view : OpsServerService → ServiceFacts
service_view s = (s.current_status, s.is_whitelisted)

unfoldable pub service_facts :
    (server_id : ℕ) → (service_name : String) → Table OpsServerService → Option ServiceFacts
service_facts server_id service_name t =
    Option.map service_view (find (is_service server_id service_name) t.rows)

of_is_service :
    (s : ℕ) (i : String) (x : OpsServerService)
    → is_service s i x ≡ true
    → (x.server_id ≡ s) × (x.service_name ≡ i)
of_is_service s i x h =
    let k = and_true (x.server_id == s) (str_eq x.service_name i) h in
    (==→eq x.server_id s k.0, (eq_iff x.service_name i).0 k.1)

service-IsUpsert :
    (reporter now : ℕ) (a : ServiceStatus)
    → IsUpsert
        (is_service reporter a.service_name)
        (update_status a.current_status now)
        (new_service reporter a now)
service-IsUpsert reporter now a = record {
  change_id = λ r. refl;
  new_id = λ n. refl;
  change_found = λ r h. h;
  new_found = λ n. rw (==_refl reporter, eq_refl a.service_name) refl;
}

-- Whether an item of a report of the server `reporter` concerns a service of a server.
abbrev pub concerns_service :
    (reporter server_id : ℕ) → (service_name : String) → ServiceStatus → Bool
concerns_service reporter server_id service_name item =
    reporter == server_id && reports_service service_name item

service-IsReport :
    (reporter now server_id : ℕ) (i : String)
    → IsReport
        (λ a. is_service reporter a.service_name)
        (λ a. update_status a.current_status now)
        (λ a. new_service reporter a now)
        (is_service server_id i)
        service_view
        (concerns_service reporter server_id i)
        merge_service
service-IsReport reporter now server_id i = record {
  upserts = service-IsUpsert reporter now;
  same = λ a c x.
      let k = and_true (reporter == server_id) (str_eq a.service_name i) c in
      rw (==→eq reporter server_id k.0, (eq_iff a.service_name i).0 k.1) refl;
  other = λ a c x h. let k = of_is_service reporter a.service_name x h in rw (k.0, k.1) c;
  view_new = λ a n. refl;
  view_change = λ a r. refl;
}

abbrev pub merged_items :
    (reporter server_id : ℕ)
    → (service_name : String) → List ServiceStatus
    → Option ServiceFacts
    → Option ServiceFacts
merged_items reporter server_id service_name items v =
    merged (concerns_service reporter server_id service_name) merge_service items v

module _ {Cache : Type 0} (reporter server_id : ℕ) (i : String) where
  -- The loop returns, and leaves the services with the items merged in and all else but the clock
  -- as it was.
  pub record IsSynced (items : List ServiceStatus) (s s' : Session Cache) : Type 0 where
    pub runs : for_each items (sync_service reporter) s ≡ ok (tt, s')
    pub table : IsTable s'.services
    pub facts :
        service_facts server_id i s'.services
        ≡ merged_items reporter server_id i items (service_facts server_id i s.services)
    pub assets : (s'.disks ≡ s.disks) × (s'.networks ≡ s.networks)

  pub items-IsSynced :
      (items : List ServiceStatus) (s : Session Cache)
      → IsTable s.services
      → (s' : Session Cache) × IsSynced items s s'
  unfolding for_each utcnow upsert_status merged service_facts read_clock upsert_each
  items-IsSynced [] s w =
      (s, record { runs = refl; table = w; facts = refl; assets = (refl, refl) })
  items-IsSynced (a ∷ rest) s w =
      let now : ℕ = s.agents.clock 0 in
      let next : Session Cache = record s {
        agents = record s.agents { clock = λ n. s.agents.clock (suc n) };
        services = upsert_status reporter a now s.services;
      } in
      let u = service-IsReport reporter now server_id i in
      let first =
        view-upsert_each (λ b. is_service reporter b.service_name)
          (λ b. update_status b.current_status now) (λ b. new_service reporter b now)
          (is_service server_id i) service_view (concerns_service reporter server_id i)
          merge_service u (a ∷ []) s.services w in
      let i' = items-IsSynced rest next first.0 in
      (
        i'.0,
        record {
          runs = i'.1.runs;
          table = i'.1.table;
          facts = i'.1.facts ∙ ap (merged_items reporter server_id i rest) first.1;
          assets = i'.1.assets;
        },
      )
