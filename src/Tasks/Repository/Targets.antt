-- ===== src/Tasks/Repository/Targets.antt =====
-- `TaskTargetRepository`
use ops_monitor.Common.{ℕ, ◌&&◌, List, ◌==◌, any, dedup, if◌then◌else◌}
use ops_monitor.Exceptions.{integrity_error}
use ops_monitor.Common.Action.{Action, ok, map_each, err}
use ops_monitor.Common.Table
use ops_monitor.Tasks.Model.{pending, OpsTaskTarget, target_entity}
use ops_monitor.Tasks.Session.{Session}

unfoldable pub create : ℕ → ℕ → Action Session OpsTaskTarget
create task_id server_id s =
    let (t, targets) =
      Table.create
        (λ k. record { id = k; task_id = task_id; server_id = server_id; target_status = pending })
        s.targets in
    if any (λ r. r.task_id == task_id && r.server_id == server_id) s.targets.rows
    then err integrity_error
    else ok (t, record s { targets = targets })

-- `set(server_ids)` in the order of the list: the order of a set is not specified.
unfoldable pub create_targets : ℕ → List ℕ → Action Session (List OpsTaskTarget)
unfolding create
create_targets task_id server_ids = map_each (dedup ◌==◌ server_ids) (create task_id)

unfoldable pub list_by_task : ℕ → Session → List OpsTaskTarget
list_by_task task_id s = Table.list_all (λ t. t.task_id == task_id) s.targets
