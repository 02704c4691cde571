-- ===== src/Protocol/Assets.antt =====
-- `DiskRepository`, `NetworkRepository` and `ServiceRepository.upsert_status` of
-- backend/app/repositories/server_repository.py. A comparison of texts is exact.
use ops_monitor.Protocol.Model.{network_entity}
use ops_monitor.Protocol.Model.{disk_entity}
use ops_monitor.Protocol.Statuses.{given_or}
use ops_monitor.Tasks.Retry.{is_given}
use ops_monitor.Servers.{OpsServerService, service_entity}
use ops_monitor.Protocol.Model.{OpsServerDisk, OpsServerNetwork}
use ops_monitor.Protocol.Requests.{DiskAsset, NetworkAsset, ServiceStatus}
use ops_monitor.Common.Table.{Entity, Table}
use ops_monitor.Common.{
  Option, ℕ, List, String, Bool, if◌then◌else◌, find, ◌∷◌, ◌==◌, any, some, ◌&&◌, str_eq, none, [],
  true, false,
}
pub mod Upsert
pub mod Inventory
pub mod Repeats
pub mod Settled
pub mod Deletes
pub mod Keys
use ops_monitor.Common.Table

abbrev pub same_optional : Option String → Option String → Bool
same_optional none none = true
same_optional (some a) (some b) = str_eq a b
same_optional _ _ = false

-- `new or old`
abbrev pub given_text_or : Option String → Option String → Option String
given_text_or new old = if is_given new then new else old

module _ {A : Type 0} ⦃e : Entity A⦄ where
  -- The first row of a query is changed, or one is created.
  abbrev pub upsert : (A → Bool) → (A → A) → (ℕ → A) → Table A → Table A
  upsert p change new t = elim (find p t.rows) [
    | none ↦ (Table.create new t).1
    | some r ↦ Table.save (change r) t
  ]

  -- `for row in rows: if not keep(row): delete(row)`
  unfoldable pub delete_each : (A → Bool) → List A → Table A → Table A
  delete_each keep [] t = t
  delete_each keep (x ∷ xs) t = delete_each keep xs (if keep x then t else Table.delete x t)

-- `for report in reports: upsert(report)`
unfoldable pub upsert_each : {A R : Type 0} → (R → Table A → Table A) → List R → Table A → Table A
upsert_each f [] t = t
upsert_each f (a ∷ rest) t = upsert_each f rest (f a t)

abbrev pub is_disk :
    (server_id : ℕ) → (device_name : String) → (mount_point : Option String) → OpsServerDisk → Bool
is_disk server_id device_name mount_point d =
    d.server_id == server_id
    && (str_eq d.device_name device_name && same_optional d.mount_point mount_point)

abbrev pub update_disk : DiskAsset → OpsServerDisk → OpsServerDisk
update_disk a d = record d {
  filesystem = given_text_or a.filesystem d.filesystem;
  total_bytes = given_or a.total_bytes d.total_bytes;
}

abbrev pub new_disk : (server_id : ℕ) → DiskAsset → ℕ → OpsServerDisk
new_disk server_id a id = record {
  id = id;
  server_id = server_id;
  device_name = a.device_name;
  mount_point = a.mount_point;
  filesystem = a.filesystem;
  total_bytes = a.total_bytes;
  status = 1;
}

unfoldable pub upsert_disk : (server_id : ℕ) → DiskAsset → Table OpsServerDisk → Table OpsServerDisk
upsert_disk server_id a t =
    upsert (is_disk server_id a.device_name a.mount_point) (update_disk a) (new_disk server_id a) t

-- `key in present_keys`, where the keys are those of the reported disks.
abbrev pub is_present : List DiskAsset → OpsServerDisk → Bool
is_present present d =
    any (λ a. str_eq d.device_name a.device_name && same_optional d.mount_point a.mount_point)
      present

unfoldable pub delete_missing :
    (server_id : ℕ) → List DiskAsset → Table OpsServerDisk → Table OpsServerDisk
unfolding delete_each
delete_missing server_id present t =
    delete_each (is_present present) (Table.list_all (λ d. d.server_id == server_id) t) t

abbrev pub is_network : (server_id : ℕ) → (interface_name : String) → OpsServerNetwork → Bool
is_network server_id interface_name n =
    n.server_id == server_id && str_eq n.interface_name interface_name

abbrev pub update_network : NetworkAsset → OpsServerNetwork → OpsServerNetwork
update_network a n = record n {
  mac_address = given_text_or a.mac_address n.mac_address;
  ip_address = given_text_or a.ip_address n.ip_address;
}

abbrev pub new_network : (server_id : ℕ) → NetworkAsset → ℕ → OpsServerNetwork
new_network server_id a id = record {
  id = id;
  server_id = server_id;
  interface_name = a.interface_name;
  mac_address = a.mac_address;
  ip_address = a.ip_address;
  status = 1;
}

unfoldable pub upsert_network :
    (server_id : ℕ) → NetworkAsset → Table OpsServerNetwork → Table OpsServerNetwork
upsert_network server_id a t =
    upsert (is_network server_id a.interface_name) (update_network a) (new_network server_id a) t

abbrev pub is_service : (server_id : ℕ) → (service_name : String) → OpsServerService → Bool
is_service server_id service_name s = s.server_id == server_id && str_eq s.service_name service_name

abbrev pub update_status :
    (current_status : String) → (now : ℕ) → OpsServerService → OpsServerService
update_status current_status now s = record s {
  current_status = some current_status;
  last_checked_at = some now;
}

abbrev pub new_service : (server_id : ℕ) → ServiceStatus → (now : ℕ) → ℕ → OpsServerService
new_service server_id item now id = record {
  id = id;
  server_id = server_id;
  service_name = item.service_name;
  display_name = some item.service_name;
  service_type = "SYSTEMD";
  is_whitelisted = 1;
  is_critical = 0;
  current_status = some item.current_status;
  last_checked_at = some now;
  status = 1;
}

-- At the time `now` that the call reads.
unfoldable pub upsert_status :
    (server_id : ℕ) → ServiceStatus → (now : ℕ) → Table OpsServerService → Table OpsServerService
upsert_status server_id item now t =
    upsert (is_service server_id item.service_name) (update_status item.current_status now)
      (new_service server_id item now) t
