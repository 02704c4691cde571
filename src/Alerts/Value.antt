-- ===== src/Alerts/Value.antt =====
-- The pure parts of `AlertEngine`: the value of a rule at a server, its threshold, and the tests.
use mathlib.Core.Option
use ops_monitor.Common.Int.{ℤ, pos, leb_ℤ, negsuc, sub_ℕ, ltb_ℤ}
use ops_monitor.Servers.{OpsServer}
use ops_monitor.Alerts.Model.{AlertRule, MonitorServerMetric}
use ops_monitor.Common.{
  String, ℕ, Option, Bool, none, if◌then◌else◌, ◌*◌, false, some, str_eq, ◌==◌, not, ◌+◌, ◌&&◌,
}

-- `METRIC_FIELD_MAP`: the column of a metric type.
unfoldable pub metric_field : String → MonitorServerMetric → Option ℤ
metric_field metric_type m =
    if str_eq metric_type "CPU"
    then m.cpu_usage
    else if str_eq metric_type "MEMORY"
    then m.memory_usage
    else if str_eq metric_type "DISK"
    then m.disk_usage
    else if str_eq metric_type "LOAD"
    then m.load_1m
    else none

-- `_get_value`: for AGENT the seconds since the last heartbeat, else the column of the metric.
unfoldable pub get_value : AlertRule → OpsServer → Option MonitorServerMetric → (now : ℕ) → Option ℤ
unfolding metric_field
get_value rule server metric now =
    if str_eq rule.metric_type "AGENT"
    then Option.map (λ at. sub_ℕ now at) server.last_heartbeat_at
    else elim metric [ none ↦ none | some m ↦ metric_field rule.metric_type m ]

-- `server.cpu_cores or 1`
abbrev pub cores_of : OpsServer → ℕ
cores_of server = elim server.cpu_cores [ none ↦ 1 | some n ↦ if n == 0 then 1 else n ]

unfoldable pub times : ℕ → ℤ → ℤ
times n (pos m) = pos (n * m)
times n (negsuc m) = sub_ℕ 0 (n * (m + 1))

-- `_effective_threshold`: a LOAD threshold counts per core. The product of a column of four decimals
-- has four decimals, so `round(…, 4)` keeps it.
unfoldable pub effective_threshold : AlertRule → OpsServer → Option ℤ
unfolding times
effective_threshold rule server =
    if str_eq rule.metric_type "LOAD"
    then Option.map (times (cores_of server)) rule.threshold
    else rule.threshold

-- `_compare`: any other operator is read as GT.
unfoldable pub compare_values : ℤ → String → Option ℤ → Bool
compare_values value operator none = false
compare_values value operator (some threshold) =
    if str_eq operator "GTE"
    then leb_ℤ threshold value
    else if str_eq operator "LT"
    then ltb_ℤ value threshold
    else if str_eq operator "LTE"
    then leb_ℤ value threshold
    else if str_eq operator "EQ"
    then leb_ℤ value threshold && leb_ℤ threshold value
    else ltb_ℤ threshold value

-- `_is_recovered`
unfoldable pub is_recovered : AlertRule → ℤ → Bool
unfolding compare_values
is_recovered rule value = elim rule.recovery_threshold [
  | some recovery ↦ leb_ℤ value recovery
  | none ↦ not (compare_values value rule.operator rule.threshold)
]
