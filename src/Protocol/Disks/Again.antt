-- ===== src/Protocol/Disks/Again.antt =====
-- A report of disks that is synchronised twice.
use ops_monitor.Protocol.Model.{disk_entity}
use ops_monitor.Protocol.Statuses.{given_or}
use ops_monitor.Protocol.Assets.{given_text_or}
use ops_monitor.Protocol.Assets.Repeats.{
  merge, given_text-Overwrites, given-Overwrites, merged_twice,
}
use ops_monitor.Protocol.Assets.Inventory.{merged}
use ops_monitor.Protocol.Service.{sync_disks}
use ops_monitor.Protocol.Disks.{
  expected_disk, disk_facts, sync_disks-expected, DiskFacts, reports_disk, merge_disk,
  sync_disks-IsTable,
}
use ops_monitor.Common.Table.Laws.{IsTable}
use ops_monitor.Protocol.Model.{OpsServerDisk}
use ops_monitor.Common.Table.{Table}
use ops_monitor.Protocol.Requests.{DiskAsset}
use ops_monitor.Common.{
  ℕ, List, String, Option, ◌≡◌, some, Bool, if◌then◌else◌, none, ◌∙◌, ap, ◌==◌, any, sym, refl, All,
  map, is_some, find, eq_refl, ==_refl,
}
use ops_monitor.Common.{true, false, none, some}
use ops_monitor.Common.Table.Elements.{Has-any}
use ops_monitor.Protocol.Assets.Settled.{
  sync_again, delete_missing-stays, merged-any, is_some-map, stays,
}
use ops_monitor.Protocol.Assets.Upsert.{All-from_Has}
use ops_monitor.Protocol.Assets.Keys.{same_optional_refl}
use ops_monitor.Protocol.Service.{upsert_disks}
use ops_monitor.Protocol.Disks.{disk_view, disk-IsUpsert}
use ops_monitor.Protocol.Assets.{
  is_disk, update_disk, new_disk, is_present, delete_missing, upsert_disk, upsert_each,
}

module _ (reporter : ℕ) (disks : List DiskAsset) (t : Table OpsServerDisk) (w : IsTable t)
    (server_id : ℕ) (d : String) (m : Option String) where
  sync_disks_facts_again :
      disk_facts server_id d m (sync_disks reporter disks (sync_disks reporter disks t))
      ≡ disk_facts server_id d m (sync_disks reporter disks t)
  unfolding expected_disk
  sync_disks_facts_again =
      sync_disks-expected reporter disks (sync_disks reporter disks t)
        (sync_disks-IsTable reporter disks t w server_id d m) server_id d m
      ∙ ap (expected_disk reporter disks server_id d m) first
      ∙ twice (server_id == reporter) (any (reports_disk d m) disks)
      ∙ sym first
    where
      first :
          disk_facts server_id d m (sync_disks reporter disks t)
          ≡ expected_disk reporter disks server_id d m (disk_facts server_id d m t)
      first = sync_disks-expected reporter disks t w server_id d m

      now : Option DiskFacts
      now = disk_facts server_id d m t

      merge_all : Option DiskFacts → Option DiskFacts
      merge_all v = merged (reports_disk d m) merge_disk disks v

      merges :
          (a : DiskAsset) (v : Option DiskFacts)
          → merge_disk a v
            ≡ merge
                (reports_disk d m)
                (λ a o. given_text_or a.filesystem o)
                (λ a o. given_or a.total_bytes o)
                (λ a. (a.filesystem, a.total_bytes))
                (given_text-Overwrites (λ a. a.filesystem))
                (given-Overwrites (λ a. a.total_bytes))
                a
                v
      merges a none = refl
      merges a (some v) = refl

      twice :
          (own reported : Bool)
          → (if own
              then (if reported
                  then merge_all (if own then (if reported then merge_all now else none) else now)
                  else none)
              else if own
              then (if reported then merge_all now else none)
              else now)
            ≡ (if own then (if reported then merge_all now else none) else now)
      twice true true =
          merged_twice (reports_disk d m) (λ a o. given_text_or a.filesystem o)
            (λ a o. given_or a.total_bytes o) (λ a. (a.filesystem, a.total_bytes))
            (given_text-Overwrites (λ a. a.filesystem)) (given-Overwrites (λ a. a.total_bytes))
            merge_disk merges disks now
      twice true false = refl
      twice false r = refl

-- What tells a row from the others.
abbrev pub disk_key : OpsServerDisk → ℕ × ℕ × String × Option String
disk_key x = (x.id, x.server_id, x.device_name, x.mount_point)

module _ (reporter : ℕ) (disks : List DiskAsset) (t : Table OpsServerDisk) (w : IsTable t) where
  abbrev once : Table OpsServerDisk
  once = sync_disks reporter disks t

  abbrev own : OpsServerDisk → Bool
  own x = x.server_id == reporter

  -- The rows of the report are there after it.
  known :
      All
        (λ a. is_some (find (is_disk reporter a.device_name a.mount_point) once.rows) ≡ true)
        disks
  unfolding disk_facts expected_disk
  known = All-from_Has _ disks (λ a h.
      let r : any (reports_disk a.device_name a.mount_point) disks ≡ true =
        Has-any (reports_disk a.device_name a.mount_point) a disks h
          (rw (eq_refl a.device_name) (same_optional_refl a.mount_point)) in
      let q : disk_facts reporter a.device_name a.mount_point once
          ≡ merged (reports_disk a.device_name a.mount_point) merge_disk disks
              (disk_facts reporter a.device_name a.mount_point t) =
        sync_disks-expected reporter disks t w reporter a.device_name a.mount_point
        ∙ (rw (==_refl reporter, r) refl) in
      sym (is_some-map disk_view (find (is_disk reporter a.device_name a.mount_point) once.rows))
      ∙ ap is_some q
      ∙ merged-any (reports_disk a.device_name a.mount_point) merge_disk disks
          (disk_facts reporter a.device_name a.mount_point t) r)

  settled : All (λ x. stays own (is_present disks) x ≡ true) once.rows
  unfolding sync_disks delete_missing
  settled = delete_missing-stays own (is_present disks) (upsert_disks reporter disks t) (λ x. refl)

  keys_again : map disk_key (sync_disks reporter disks once).rows ≡ map disk_key once.rows
  unfolding sync_disks delete_missing upsert_disks upsert_disk upsert_each
  keys_again =
      sync_again (λ a. is_disk reporter a.device_name a.mount_point) update_disk (new_disk reporter)
        (disk-IsUpsert reporter) (λ b a x. refl) disk_key (λ a x. refl) own (is_present disks)
        (λ a x. refl) disks once (sync_disks-IsTable reporter disks t w 0 "" none) known settled

  -- Synchronising the same report of disks once more adds no row, deletes none and moves none to
  -- another key, and changes nothing that the inventory says of any disk of any server.
  pub sync_disks_again :
      (map disk_key (sync_disks reporter disks (sync_disks reporter disks t)).rows
        ≡ map disk_key (sync_disks reporter disks t).rows)
      × ((server_id : ℕ) (d : String) (m : Option String)
          → disk_facts server_id d m (sync_disks reporter disks (sync_disks reporter disks t))
            ≡ disk_facts server_id d m (sync_disks reporter disks t))
  sync_disks_again =
      (keys_again, λ server_id d m. sync_disks_facts_again reporter disks t w server_id d m)
