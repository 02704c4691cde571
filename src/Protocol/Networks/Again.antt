-- ===== src/Protocol/Networks/Again.antt =====
-- A report of networks that is synchronised twice.
use ops_monitor.Protocol.Model.{network_entity}
use ops_monitor.Protocol.Assets.{given_text_or}
use ops_monitor.Protocol.Assets.Repeats.{merge, given_text-Overwrites, merged_twice}
use ops_monitor.Protocol.Assets.Inventory.{merged}
use ops_monitor.Protocol.Service.{sync_networks}
use ops_monitor.Protocol.Networks.{
  expected_network, network_facts, sync_networks-expected, NetworkFacts, reports_network,
  merge_network, sync_networks-IsTable,
}
use ops_monitor.Common.Table.Laws.{IsTable}
use ops_monitor.Protocol.Model.{OpsServerNetwork}
use ops_monitor.Common.Table.{Table}
use ops_monitor.Protocol.Requests.{NetworkAsset}
use ops_monitor.Common.{
  true, false, none, some, ℕ, List, String, ◌≡◌, Option, Bool, if◌then◌else◌, ◌∙◌, ap, ◌==◌, any,
  sym, refl, All, map, is_some, find, eq_refl, ==_refl,
}
use ops_monitor.Common.Table.Elements.{Has-any}
use ops_monitor.Protocol.Assets.Settled.{
  sync_again, delete_missing-stays, merged-any, is_some-map, stays,
}
use ops_monitor.Protocol.Assets.Upsert.{All-from_Has}
use ops_monitor.Protocol.Service.{upsert_networks, is_reported}
use ops_monitor.Protocol.Networks.{network_view, network-IsUpsert}
use ops_monitor.Protocol.Assets.{
  is_network, update_network, new_network, upsert_network, upsert_each,
}

module _ (reporter : ℕ) (networks : List NetworkAsset) (t : Table OpsServerNetwork) (w : IsTable t)
    (server_id : ℕ) (i : String) where
  sync_networks_facts_again :
      network_facts server_id i
        (sync_networks reporter networks (sync_networks reporter networks t))
      ≡ network_facts server_id i (sync_networks reporter networks t)
  unfolding expected_network
  sync_networks_facts_again =
      sync_networks-expected reporter networks (sync_networks reporter networks t)
        (sync_networks-IsTable reporter networks t w server_id i) server_id i
      ∙ ap (expected_network reporter networks server_id i) first
      ∙ twice (server_id == reporter) (any (reports_network i) networks)
      ∙ sym first
    where
      first :
          network_facts server_id i (sync_networks reporter networks t)
          ≡ expected_network reporter networks server_id i (network_facts server_id i t)
      first = sync_networks-expected reporter networks t w server_id i

      now : Option NetworkFacts
      now = network_facts server_id i t

      merge_all : Option NetworkFacts → Option NetworkFacts
      merge_all v = merged (reports_network i) merge_network networks v

      merges :
          (a : NetworkAsset) (v : Option NetworkFacts)
          → merge_network a v
            ≡ merge
                (reports_network i)
                (λ a o. given_text_or a.mac_address o)
                (λ a o. given_text_or a.ip_address o)
                (λ a. (a.mac_address, a.ip_address))
                (given_text-Overwrites (λ a. a.mac_address))
                (given_text-Overwrites (λ a. a.ip_address))
                a
                v
      merges a none = refl
      merges a (some v) = refl

      twice :
          (own reported : Bool)
          → (if own
              then (if reported
                  then merge_all (if own then (if reported then merge_all now else none) else now)
                  else none)
              else if own
              then (if reported then merge_all now else none)
              else now)
            ≡ (if own then (if reported then merge_all now else none) else now)
      twice true true =
          merged_twice (reports_network i) (λ a o. given_text_or a.mac_address o)
            (λ a o. given_text_or a.ip_address o) (λ a. (a.mac_address, a.ip_address))
            (given_text-Overwrites (λ a. a.mac_address)) (given_text-Overwrites (λ a. a.ip_address))
            merge_network merges networks now
      twice true false = refl
      twice false r = refl

-- What tells a row from the others.
abbrev pub network_key : OpsServerNetwork → ℕ × ℕ × String
network_key x = (x.id, x.server_id, x.interface_name)

module _ (reporter : ℕ) (networks : List NetworkAsset) (t : Table OpsServerNetwork)
    (w : IsTable t) where
  abbrev once : Table OpsServerNetwork
  once = sync_networks reporter networks t

  abbrev own : OpsServerNetwork → Bool
  own x = x.server_id == reporter

  -- The rows of the report are there after it.
  known : All (λ a. is_some (find (is_network reporter a.interface_name) once.rows) ≡ true) networks
  unfolding network_facts expected_network
  known = All-from_Has _ networks (λ a h.
      let r : any (reports_network a.interface_name) networks ≡ true =
        Has-any (reports_network a.interface_name) a networks h (eq_refl a.interface_name) in
      let q : network_facts reporter a.interface_name once
          ≡ merged (reports_network a.interface_name) merge_network networks
              (network_facts reporter a.interface_name t) =
        sync_networks-expected reporter networks t w reporter a.interface_name
        ∙ (rw (==_refl reporter, r) refl) in
      sym (is_some-map network_view (find (is_network reporter a.interface_name) once.rows))
      ∙ ap is_some q
      ∙ merged-any (reports_network a.interface_name) merge_network networks
          (network_facts reporter a.interface_name t) r)

  settled : All (λ x. stays own (is_reported networks) x ≡ true) once.rows
  unfolding sync_networks
  settled =
      delete_missing-stays own (is_reported networks) (upsert_networks reporter networks t)
        (λ x. refl)

  keys_again :
      map network_key (sync_networks reporter networks once).rows ≡ map network_key once.rows
  unfolding sync_networks upsert_networks upsert_network upsert_each
  keys_again =
      sync_again (λ a. is_network reporter a.interface_name) update_network (new_network reporter)
        (network-IsUpsert reporter) (λ b a x. refl) network_key (λ a x. refl) own
        (is_reported networks) (λ a x. refl) networks once
        (sync_networks-IsTable reporter networks t w 0 "") known settled

  -- Synchronising the same report of networks once more adds no row, deletes none and moves none to
  -- another key, and changes nothing that the inventory says of any network of any server.
  pub sync_networks_again :
      (map network_key (sync_networks reporter networks (sync_networks reporter networks t)).rows
        ≡ map network_key (sync_networks reporter networks t).rows)
      × ((server_id : ℕ) (i : String)
          → network_facts server_id i
              (sync_networks reporter networks (sync_networks reporter networks t))
            ≡ network_facts server_id i (sync_networks reporter networks t))
  sync_networks_again =
      (keys_again, λ server_id i. sync_networks_facts_again reporter networks t w server_id i)
