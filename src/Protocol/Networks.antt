-- ===== src/Protocol/Networks.antt =====
-- What the table of networks holds after `sync_assets` of backend/app/services/agent_service.py.
pub mod Again
use ops_monitor.Protocol.Model.{network_entity}
use ops_monitor.Protocol.Assets.Deletes.{
  delete_each-IsTable, delete_missing-kept, delete_missing-gone,
}
use ops_monitor.Protocol.Assets.Keys.{and_true, any-cong, str_eq_sym}
use ops_monitor.Protocol.Service.{sync_networks, upsert_networks, is_reported}
use ops_monitor.Common.Table.Laws.{IsTable}
use ops_monitor.Protocol.Assets.Upsert.{IsUpsert, upsert_each-IsTable}
use ops_monitor.Protocol.Assets.{
  is_network, given_text_or, update_network, new_network, upsert_network, upsert_each,
}
use ops_monitor.Common.Table.{Table}
use ops_monitor.Protocol.Assets.Inventory.{merged, IsReport, view-upsert_each, merged_none}
use ops_monitor.Protocol.Model.{OpsServerNetwork}
use ops_monitor.Protocol.Requests.{NetworkAsset}
use ops_monitor.Common.{
  Option, String, ℕ, List, Bool, if◌then◌else◌, ◌==◌, some, str_eq, find, any, ◌≡◌, none, true,
  false, Bool-cases, ==_refl, eq_iff, arith, inl, ==→eq, eq_refl, ap, subst, ◌∙◌, sym, inr, refl,
}
use ops_monitor.Common.Table
use mathlib.Core.Option

abbrev pub NetworkFacts : Type 0
NetworkFacts = Option String × Option String

-- What a report says of a network, over what was recorded: an address that is given and not empty
-- replaces the old one.
abbrev pub merge_network : NetworkAsset → Option NetworkFacts → NetworkFacts
merge_network a none = (a.mac_address, a.ip_address)
merge_network a (some v) = (given_text_or a.mac_address v.0, given_text_or a.ip_address v.1)

abbrev pub reports_network : (interface_name : String) → NetworkAsset → Bool
reports_network interface_name a = str_eq a.interface_name interface_name

abbrev pub network_view : OpsServerNetwork → NetworkFacts
network_view n = (n.mac_address, n.ip_address)

-- The inventory: what is recorded of a server's network.
unfoldable pub network_facts :
    (server_id : ℕ) → (interface_name : String) → Table OpsServerNetwork → Option NetworkFacts
network_facts server_id interface_name t =
    Option.map network_view (find (is_network server_id interface_name) t.rows)

-- What the inventory is to say after a report, from what it said.
unfoldable pub expected_network :
    (reporter : ℕ)
    → List NetworkAsset
    → (server_id : ℕ) → (interface_name : String) → Option NetworkFacts
    → Option NetworkFacts
unfolding merged
expected_network reporter networks server_id interface_name old =
    if server_id == reporter
    then (if any (reports_network interface_name) networks
        then merged (reports_network interface_name) merge_network networks old
        else none)
    else old

of_is_network :
    (s : ℕ) (i : String) (x : OpsServerNetwork)
    → is_network s i x ≡ true
    → (x.server_id ≡ s) × (x.interface_name ≡ i)
of_is_network s i x h =
    let k = and_true (x.server_id == s) (str_eq x.interface_name i) h in
    (==→eq x.server_id s k.0, (eq_iff x.interface_name i).0 k.1)

pub network-IsUpsert :
    (reporter : ℕ) (a : NetworkAsset)
    → IsUpsert (is_network reporter a.interface_name) (update_network a) (new_network reporter a)
network-IsUpsert reporter a = record {
  change_id = λ r. refl;
  new_id = λ n. refl;
  change_found = λ r h. h;
  new_found = λ n. rw (==_refl reporter, eq_refl a.interface_name) refl;
}

module _ (reporter : ℕ) (i : String) where
  own-IsReport :
      IsReport
        (λ a. is_network reporter a.interface_name)
        update_network
        (new_network reporter)
        (is_network reporter i)
        network_view
        (reports_network i)
        merge_network
  own-IsReport = record {
    upserts = network-IsUpsert reporter;
    same = λ a c x. let k = (eq_iff a.interface_name i).0 c in rw k refl;
    other = λ a c x h.
        let k = of_is_network reporter a.interface_name x h in
        rw (k.0, k.1, ==_refl reporter, c) refl;
    view_new = λ a n. refl;
    view_change = λ a r. refl;
  }

  other-IsReport :
      (server_id : ℕ)
      → (server_id == reporter) ≡ false
      → IsReport
          (λ a. is_network reporter a.interface_name)
          update_network
          (new_network reporter)
          (is_network server_id i)
          network_view
          (λ _. false)
          merge_network
  other-IsReport server_id ne = record {
    upserts = network-IsUpsert reporter;
    same = λ a c x. cc;
    other = λ a c x h. let k = of_is_network reporter a.interface_name x h in ground arith;
    view_new = λ a n. refl;
    view_change = λ a r. refl;
  }

-- A row of the key is kept exactly if the report lists the key.
reported_key :
    (networks : List NetworkAsset) (s : ℕ) (i : String) (x : OpsServerNetwork)
    → is_network s i x ≡ true
    → is_reported networks x ≡ any (reports_network i) networks
reported_key networks s i x h =
    let k = of_is_network s i x h in
    rw (k.1) (any-cong (λ a. str_eq_sym i a.interface_name) networks)

module _ (reporter : ℕ) (networks : List NetworkAsset) (t : Table OpsServerNetwork) (w : IsTable t)
    (server_id : ℕ) (i : String) where
  abbrev old : Option NetworkFacts
  old = network_facts server_id i t

  abbrev new_facts : Option NetworkFacts
  new_facts = network_facts server_id i (sync_networks reporter networks t)

  abbrev upserted : Table OpsServerNetwork
  upserted = upsert_networks reporter networks t

  module _ (concerns : NetworkAsset → Bool)
      (u : IsReport
        (λ a. is_network reporter a.interface_name)
        update_network
        (new_network reporter)
        (is_network server_id i)
        network_view
        concerns
        merge_network) where
    upserted_facts :
        IsTable upserted
        × (network_facts server_id i upserted ≡ merged concerns merge_network networks old)
    unfolding upsert_networks upsert_network network_facts upsert_each
    upserted_facts =
        view-upsert_each (λ a. is_network reporter a.interface_name) update_network
          (new_network reporter) (is_network server_id i) network_view concerns merge_network u
          networks t w

    sync-kept :
        ((x : OpsServerNetwork)
          → is_network server_id i x ≡ true
          → (x.server_id == reporter) ≡ true
          → is_reported networks x ≡ true)
        → new_facts ≡ merged concerns merge_network networks old
    unfolding sync_networks network_facts
    sync-kept k =
        ap (Option.map network_view) (
          delete_missing-kept (is_reported networks) (λ x. x.server_id == reporter)
            (is_network server_id i) upserted upserted_facts.0 k)
        ∙ upserted_facts.1

  sync-gone :
      ((x : OpsServerNetwork)
        → is_network server_id i x ≡ true
        → ((x.server_id == reporter) ≡ true) × (is_reported networks x ≡ false))
      → new_facts ≡ none
  unfolding sync_networks network_facts
  sync-gone k = ap (Option.map network_view) (
      delete_missing-gone (is_reported networks) (λ x. x.server_id == reporter)
        (is_network server_id i) upserted (λ x. refl) k)

  -- After a report of networks is synchronised, the inventory says of every network of every server
  -- what is expected: a network that the report lists has what was recorded with the report's
  -- entries for it merged in one after another, any other network of that server is gone, and the
  -- networks of the other servers are as they were.
  pub sync_networks-expected : new_facts ≡ expected_network reporter networks server_id i old
  unfolding expected_network
  sync_networks-expected = elim (Bool-cases (server_id == reporter)) [
    | inl own ↦
        let same : server_id ≡ reporter = ==→eq server_id reporter own in
        elim (Bool-cases (any (reports_network i) networks)) [
          | inl r ↦
              rw (own, r)
                (sync-kept (reports_network i)
                  (subst
                    (λ (s : ℕ).
                      IsReport (λ a. is_network reporter a.interface_name) update_network
                        (new_network reporter) (is_network s i) network_view (reports_network i)
                        merge_network)
                    (sym same) (own-IsReport reporter i))
                  (λ x h _. reported_key networks server_id i x h ∙ r))
          | inr n ↦
              rw (own, n)
                (sync-gone (λ x h.
                  let k = of_is_network server_id i x h in
                  (rw (k.0) own, reported_key networks server_id i x h ∙ n)))
        ]
    | inr ne ↦ rw ne (
        sync-kept (λ _. false) (other-IsReport reporter i server_id ne)
          (λ x h o. let k = of_is_network server_id i x h in ground arith)
        ∙ merged_none merge_network networks old)
  ]

  pub sync_networks-IsTable : IsTable (sync_networks reporter networks t)
  unfolding sync_networks upsert_networks upsert_network
  sync_networks-IsTable =
      delete_each-IsTable (is_reported networks)
        (Table.list_all (λ x. x.server_id == reporter) upserted) upserted
        (upsert_each-IsTable (λ a. is_network reporter a.interface_name) update_network
          (new_network reporter) (network-IsUpsert reporter) networks t w)
