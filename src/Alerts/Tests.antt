-- ===== src/Alerts/Tests.antt =====
-- The theorems on alerts at concrete tables.
use ops_monitor.Servers.Examples.{web}
use ops_monitor.Alerts.Recovery.{open_above_recovery}
use ops_monitor.Alerts.Engine.{evaluate_value, alert_key}
use ops_monitor.Alerts.Value.{effective_threshold}
use ops_monitor.Alerts.Session.{get_active_by_alert_key}
use ops_monitor.Common.Action.{ok, sum_each}
use ops_monitor.Common.Int.{ℤ, ◌≤ℤ◌}
use ops_monitor.Alerts.Steps.Trail.{entry, other, arrived, along, start, IsLogged, Leads}
use ops_monitor.Alerts.Counts.{evaluate_all-Counts}
use ops_monitor.Alerts.Engine.{evaluate_all}
use ops_monitor.Alerts.Steps.Turns.{
  serve_keeps_trail, serve_keeps_Unique, serve_keeps_resolved, serve-Steps,
}
use ops_monitor.Common.Int.{pos}
use ops_monitor.Alerts.Requests.{Request, Turn, serve}
use ops_monitor.Common.Action.Post.{Post}
use ops_monitor.Alerts.Steps.{Steps, resolve_pending}
use ops_monitor.Common.Table.Laws.{Has}
use ops_monitor.Alerts.Steps.Invariant.{Unique}
use ops_monitor.Alerts.Steps.Trail.{IsLogged, Leads}
use ops_monitor.Common.{ℕ, List, All, none, some, ◌∷◌, arith, length, [], ◌+◌, ◌≡◌, inl, refl}
use ops_monitor.Alerts.Session.{Session, new_log}
use ops_monitor.Alerts.Model.{AlertRule, MonitorServerMetric, AlertEvent, pending, resolved}
use ops_monitor.Alerts.Requests

-- CPU above 90 percent for a minute, until it is at 80.
abbrev cpu_high : AlertRule
cpu_high = record {
  id = 1;
  rule_name = "CPU";
  metric_type = "CPU";
  target_type = "SERVER";
  severity = "CRITICAL";
  operator = "GT";
  threshold = some (pos 90000000);
  duration_seconds = 60;
  recovery_threshold = some (pos 80000000);
  enabled = 1;
  description = none;
  created_by = none;
}

-- The agent gone for five minutes.
abbrev agent_lost : AlertRule
agent_lost = record cpu_high {
  id = 2;
  rule_name = "AGENT";
  metric_type = "AGENT";
  threshold = some (pos 300000000);
  recovery_threshold = none;
}

abbrev busy : MonitorServerMetric
busy = record {
  id = 1;
  server_id = 1;
  collected_at = 100;
  cpu_usage = some (pos 95000000);
  memory_usage = none;
  memory_used_bytes = none;
  disk_usage = none;
  network_in_bytes = none;
  network_out_bytes = none;
  load_1m = none;
  load_5m = none;
  load_15m = none;
  tcp_connections = none;
  uptime_seconds = none;
}

abbrev over : AlertEvent
over = record {
  id = 1;
  rule_id = 1;
  server_id = some 1;
  resource_type = "SERVER";
  resource_id = some 1;
  alert_key = record { rule_id = 1; server_id = 1; metric_type = "CPU" };
  metric_type = "CPU";
  severity = "CRITICAL";
  status = resolved;
  first_fired_at = some 10;
  last_fired_at = some 10;
  acknowledged_by = none;
  acknowledged_at = none;
  resolved_at = some 20;
  current_value = some (pos 70000000);
  threshold_value = some (pos 90000000);
  message = record { rule_name = "CPU"; value = pos 95000000; threshold = some (pos 90000000) };
}

abbrev raised : AlertEvent
raised = record over { id = 2; status = pending; first_fired_at = some 50; resolved_at = none }

abbrev night : Session
night = record {
  rules = record { rows = cpu_high ∷ agent_lost ∷ []; next_id = 3 };
  events = record { rows = over ∷ raised ∷ []; next_id = 3 };
  logs = record {
    rows =
        new_log 1 none pending none "检测到异常，进入待确认" none 1
        ∷ new_log 1 (some pending) resolved none "指标恢复正常，告警解除" none 2
        ∷ new_log 2 none pending none "检测到异常，进入待确认" none 3
        ∷ [];
    next_id = 4;
  };
  servers = record { rows = web ∷ []; next_id = 2 };
  metrics = record { rows = busy ∷ []; next_id = 2 };
  clock = λ n. n + 100000000;
}

abbrev turn : (ℕ → ℕ) → Request → Turn
turn clock request = record {
  clock = clock;
  servers = night.servers;
  metrics = night.metrics;
  rules = night.rules;
  request = request;
}

abbrev turns : List Turn
turns =
    turn (λ n. n + 100000000) Requests.evaluate
    ∷ turn (λ n. n + 400000000) Requests.evaluate
    ∷ turn (λ n. n + 410000000) (Requests.acknowledge 2 (some 7))
    ∷ turn (λ n. n + 420000000) (Requests.resolve 2 (some 7))
    ∷ turn (λ n. n + 430000000) (Requests.resolve 1 (some 7))
    ∷ turn (λ n. n + 440000000) (Requests.delete_rule 1)
    ∷ []

night-IsLogged : IsLogged night.events night.logs
night-IsLogged = record {
  is_events = record {
    table = record {
      below = (omega arith, (omega arith, tt));
      distinct = ((omega arith, tt), (tt, tt));
    };
    unique = ((refl, tt), (tt, tt));
  };
  named = (omega arith, (omega arith, (omega arith, tt)));
  trail = (
    entry refl start (entry refl (along resolve_pending) (other (omega arith) arrived)),
    (other (omega arith) (other (omega arith) (entry refl start arrived)), tt),
  );
}

serve_keeps_trail_example :
    All
      (λ e. Leads e.id none (serve turns night).logs.rows (some e.status))
      (serve turns night).events.rows
serve_keeps_trail_example = serve_keeps_trail turns night night-IsLogged

serve_keeps_Unique_example : Unique (serve turns night).events.rows
serve_keeps_Unique_example = serve_keeps_Unique turns night night-IsLogged.is_events

serve_keeps_resolved_example : Has over (serve turns night).events.rows
serve_keeps_resolved_example =
    serve_keeps_resolved turns night over night-IsLogged.is_events (inl refl) refl

serve-Steps_example : Steps night (serve turns night)
serve-Steps_example = serve-Steps turns night

evaluate_all-Counts_example : Post (λ n s'. length s'.events.rows ≡ 2 + n) (evaluate_all night)
evaluate_all-Counts_example = evaluate_all-Counts night

-- CPU below 5 percent, until it is at 10.
abbrev cpu_low : AlertRule
cpu_low = record cpu_high {
  operator = "LT";
  threshold = some (pos 5000000);
  recovery_threshold = some (pos 10000000);
}

-- An alert of that rule, and values of 50 and 60 percent.
abbrev low_night : Session
low_night = record night { events = record { rows = raised ∷ []; next_id = 3 } }

abbrev high : List (ℕ × ℤ)
high = (5, pos 50000000) ∷ (6, pos 60000000) ∷ []

open_above_recovery_example :
    (s' : Session) × (sum_each high (λ x. evaluate_value cpu_low web x.0 x.1) low_night
      ≡ ok (0, s'))
    × (s' ≡ low_night)
    × (get_active_by_alert_key (alert_key cpu_low web) s' ≡ some raised)
    × ((now : ℕ) (value : ℤ)
        → pos 5000000 ≤ℤ value
        → value ≤ℤ pos 10000000
        → (closed : AlertEvent) × (s'' : Session) × (evaluate_value cpu_low web now value s'
            ≡ ok (0, s''))
          × Has closed s''.events.rows
          × (closed.id ≡ 2)
          × (closed.status ≡ resolved)
          × (closed.resolved_at ≡ some now))
unfolding get_active_by_alert_key effective_threshold
open_above_recovery_example =
    open_above_recovery cpu_low web (pos 5000000) (pos 10000000) refl refl refl (omega arith) raised
      low_night refl high (refl, (refl, tt))
