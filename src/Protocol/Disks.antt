-- ===== src/Protocol/Disks.antt =====
-- What the table of disks holds after `sync_assets` of backend/app/services/agent_service.py.
pub mod Again
use ops_monitor.Protocol.Assets.Deletes.{
  delete_missing-kept, delete_missing-gone, delete_each-IsTable,
}
use ops_monitor.Protocol.Assets.Keys.{
  and_true, same_optional_refl, key_of, any-cong, str_eq_sym, same_optional_sym,
}
use ops_monitor.Tasks.Retry.{is_given}
use ops_monitor.Common.Table
use ops_monitor.Protocol.Assets.Repeats.{Overwrites, merge, merged_twice}
use ops_monitor.Protocol.Service.{sync_disks, upsert_disks}
use ops_monitor.Common.Table.Laws.{IsTable}
use ops_monitor.Protocol.Model.{disk_entity}
use ops_monitor.Protocol.Statuses.{given_or}
use ops_monitor.Protocol.Assets.Upsert.{IsUpsert, upsert_each-IsTable}
use ops_monitor.Protocol.Assets.{
  same_optional, is_disk, given_text_or, update_disk, new_disk, is_present, upsert_disk,
  upsert_each, delete_missing,
}
use ops_monitor.Common.Table.{Table}
use ops_monitor.Protocol.Assets.Inventory.{merged, IsReport, view-upsert_each, merged_none}
use ops_monitor.Protocol.Model.{OpsServerDisk}
use ops_monitor.Protocol.Requests.{DiskAsset}
use ops_monitor.Common.{
  Option, String, ℕ, Bool, str_eq, List, ◌&&◌, ◌==◌, some, find, if◌then◌else◌, ◌≡◌, any, true,
  false, none, eq_refl, arith, eq_iff, ==→eq, ==_refl, ap, refl, ◌∷◌, Bool-cases, [], inl, subst,
  inr, ◌∙◌, sym, ◌⊎◌,
}
use mathlib.Core.Option

abbrev pub DiskFacts : Type 0
DiskFacts = Option String × Option ℕ

-- What a report says of a disk, over what was recorded: a file system that is given and not empty,
-- and a size that is given, replace the old ones.
abbrev pub merge_disk : DiskAsset → Option DiskFacts → DiskFacts
merge_disk a none = (a.filesystem, a.total_bytes)
merge_disk a (some v) = (given_text_or a.filesystem v.0, given_or a.total_bytes v.1)

abbrev pub reports_disk : (device_name : String) → (mount_point : Option String) → DiskAsset → Bool
reports_disk device_name mount_point a =
    str_eq a.device_name device_name && same_optional a.mount_point mount_point

abbrev pub disk_view : OpsServerDisk → DiskFacts
disk_view d = (d.filesystem, d.total_bytes)

-- The inventory: what is recorded of a server's disk.
unfoldable pub disk_facts :
    (server_id : ℕ)
    → (device_name : String) → (mount_point : Option String) → Table OpsServerDisk
    → Option DiskFacts
disk_facts server_id device_name mount_point t =
    Option.map disk_view (find (is_disk server_id device_name mount_point) t.rows)

-- What the inventory is to say after a report, from what it said.
unfoldable pub expected_disk :
    (reporter : ℕ)
    → List DiskAsset
    → (server_id : ℕ) → (device_name : String) → (mount_point : Option String) → Option DiskFacts
    → Option DiskFacts
unfolding merged
expected_disk reporter disks server_id device_name mount_point old =
    if server_id == reporter
    then (if any (reports_disk device_name mount_point) disks
        then merged (reports_disk device_name mount_point) merge_disk disks old
        else none)
    else old

of_is_disk :
    (s : ℕ) (d : String) (m : Option String) (x : OpsServerDisk)
    → is_disk s d m x ≡ true
    → (x.server_id ≡ s) × (x.device_name ≡ d) × (x.mount_point ≡ m)
of_is_disk s d m x h =
    let k =
      and_true (x.server_id == s) (str_eq x.device_name d && same_optional x.mount_point m) h in
    let l = key_of x.device_name d x.mount_point m k.1 in (==→eq x.server_id s k.0, l.0, l.1)

pub disk-IsUpsert :
    (reporter : ℕ) (a : DiskAsset)
    → IsUpsert (is_disk reporter a.device_name a.mount_point) (update_disk a) (new_disk reporter a)
disk-IsUpsert reporter a = record {
  change_id = λ r. refl;
  new_id = λ n. refl;
  change_found = λ r h. h;
  new_found =
      λ n. rw (==_refl reporter, eq_refl a.device_name, same_optional_refl a.mount_point) refl;
}

module _ (reporter : ℕ) (d : String) (m : Option String) where
  own-IsReport :
      IsReport
        (λ a. is_disk reporter a.device_name a.mount_point)
        update_disk
        (new_disk reporter)
        (is_disk reporter d m)
        disk_view
        (reports_disk d m)
        merge_disk
  own-IsReport = record {
    upserts = disk-IsUpsert reporter;
    same = λ a c x. let k = key_of a.device_name d a.mount_point m c in rw (k.0, k.1) refl;
    other = λ a c x h.
        let k = of_is_disk reporter a.device_name a.mount_point x h in
        rw (k.0, k.1, k.2, ==_refl reporter, c) refl;
    view_new = λ a n. refl;
    view_change = λ a r. refl;
  }

  other-IsReport :
      (server_id : ℕ)
      → (server_id == reporter) ≡ false
      → IsReport
          (λ a. is_disk reporter a.device_name a.mount_point)
          update_disk
          (new_disk reporter)
          (is_disk server_id d m)
          disk_view
          (λ _. false)
          merge_disk
  other-IsReport server_id ne = record {
    upserts = disk-IsUpsert reporter;
    same = λ a c x. cc;
    other = λ a c x h. let k = of_is_disk reporter a.device_name a.mount_point x h in ground arith;
    view_new = λ a n. refl;
    view_change = λ a r. refl;
  }

-- A row of the key is kept exactly if the report lists the key.
present_reported :
    (disks : List DiskAsset) (s : ℕ) (d : String) (m : Option String) (x : OpsServerDisk)
    → is_disk s d m x ≡ true
    → is_present disks x ≡ any (reports_disk d m) disks
present_reported disks s d m x h =
    let k = of_is_disk s d m x h in
    rw (k.1, k.2)
      (any-cong (λ a. rw (str_eq_sym d a.device_name, same_optional_sym m a.mount_point) refl)
        disks)

module _ (reporter : ℕ) (disks : List DiskAsset) (t : Table OpsServerDisk) (w : IsTable t)
    (server_id : ℕ) (d : String) (m : Option String) where
  abbrev old : Option DiskFacts
  old = disk_facts server_id d m t

  abbrev new_facts : Option DiskFacts
  new_facts = disk_facts server_id d m (sync_disks reporter disks t)

  abbrev upserted : Table OpsServerDisk
  upserted = upsert_disks reporter disks t

  module _ (concerns : DiskAsset → Bool)
      (u : IsReport
        (λ a. is_disk reporter a.device_name a.mount_point)
        update_disk
        (new_disk reporter)
        (is_disk server_id d m)
        disk_view
        concerns
        merge_disk) where
    upserted_facts :
        IsTable upserted
        × (disk_facts server_id d m upserted ≡ merged concerns merge_disk disks old)
    unfolding upsert_disks upsert_disk disk_facts upsert_each
    upserted_facts =
        view-upsert_each (λ a. is_disk reporter a.device_name a.mount_point) update_disk
          (new_disk reporter) (is_disk server_id d m) disk_view concerns merge_disk u disks t w

    sync-kept :
        ((x : OpsServerDisk)
          → is_disk server_id d m x ≡ true
          → (x.server_id == reporter) ≡ true
          → is_present disks x ≡ true)
        → new_facts ≡ merged concerns merge_disk disks old
    unfolding sync_disks delete_missing disk_facts
    sync-kept k =
        ap (Option.map disk_view) (
          delete_missing-kept (is_present disks) (λ x. x.server_id == reporter)
            (is_disk server_id d m) upserted upserted_facts.0 k)
        ∙ upserted_facts.1

  sync-gone :
      ((x : OpsServerDisk)
        → is_disk server_id d m x ≡ true
        → ((x.server_id == reporter) ≡ true) × (is_present disks x ≡ false))
      → new_facts ≡ none
  unfolding sync_disks delete_missing disk_facts
  sync-gone k = ap (Option.map disk_view) (
      delete_missing-gone (is_present disks) (λ x. x.server_id == reporter) (is_disk server_id d m)
        upserted (λ x. refl) k)

  -- After a report of disks is synchronised, the inventory says of every disk of every server what
  -- is expected: a disk that the report lists has what was recorded with the report's entries for
  -- it merged in one after another, any other disk of that server is gone, and the disks of the
  -- other servers are as they were.
  pub sync_disks-expected : new_facts ≡ expected_disk reporter disks server_id d m old
  unfolding expected_disk
  sync_disks-expected = elim (Bool-cases (server_id == reporter)) [
    | inl own ↦
        let same : server_id ≡ reporter = ==→eq server_id reporter own in
        elim (Bool-cases (any (reports_disk d m) disks)) [
          | inl r ↦
              rw (own, r)
                (sync-kept (reports_disk d m)
                  (subst
                    (λ (s : ℕ).
                      IsReport (λ a. is_disk reporter a.device_name a.mount_point) update_disk
                        (new_disk reporter) (is_disk s d m) disk_view (reports_disk d m) merge_disk)
                    (sym same) (own-IsReport reporter d m))
                  (λ x h _. present_reported disks server_id d m x h ∙ r))
          | inr n ↦
              rw (own, n)
                (sync-gone (λ x h.
                  let k = of_is_disk server_id d m x h in
                  (rw (k.0) own, present_reported disks server_id d m x h ∙ n)))
        ]
    | inr ne ↦ rw ne (
        sync-kept (λ _. false) (other-IsReport reporter d m server_id ne)
          (λ x h o. let k = of_is_disk server_id d m x h in ground arith)
        ∙ merged_none merge_disk disks old)
  ]

  pub sync_disks-IsTable : IsTable (sync_disks reporter disks t)
  unfolding sync_disks delete_missing upsert_disks upsert_disk
  sync_disks-IsTable =
      delete_each-IsTable (is_present disks)
        (Table.list_all (λ x. x.server_id == reporter) upserted) upserted
        (upsert_each-IsTable (λ a. is_disk reporter a.device_name a.mount_point) update_disk
          (new_disk reporter) (disk-IsUpsert reporter) disks t w)
