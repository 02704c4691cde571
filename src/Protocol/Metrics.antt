-- ===== src/Protocol/Metrics.antt =====
-- Which metrics `ingest_metrics` of backend/app/services/agent_service.py records.
use ops_monitor.Alerts.Model.{metric_entity}
use ops_monitor.Exceptions.{app, invalid_timestamp}
use ops_monitor.Common.Action.{ok, err}
use ops_monitor.Protocol.Reports.{IsFor, matches}
use ops_monitor.Agents.Session.{read_clock}
use ops_monitor.Protocol.Service.{
  max_time_skew_seconds, normalize_utc, ingest_metrics, validate_timestamp, new_metric, is_skewed,
}
use ops_monitor.Protocol.Session.{Session, utcnow}
use ops_monitor.Protocol.Requests.{MetricsRequest}
use ops_monitor.Servers.{OpsServer}
use ops_monitor.Common.{
  ℕ, ◌≤◌, ◌+◌, ◌*◌, ◌≡◌, ◌++◌, ◌∷◌, [], false, arith, suc, true, Bool-cases, inl, inr, refl,
}
use ops_monitor.Common.Table

-- The two times are at most 300 seconds apart.
abbrev pub IsNear : (now at : ℕ) → Type 0
IsNear now at =
    (now ≤ at + max_time_skew_seconds * 1000000) × (at ≤ now + max_time_skew_seconds * 1000000)

module _ {Cache : Type 0} (server : OpsServer) (body : MetricsRequest) (s : Session Cache) where
  abbrev pub now : ℕ
  now = s.agents.clock 0

  abbrev pub collected : ℕ
  collected = normalize_utc body.timestamp

  -- A report of metrics for the server of its token that was collected at most 300 seconds from now
  -- is answered, and adds one row, which carries the normalised time; one that was collected earlier
  -- or later is refused with INVALID_TIMESTAMP.
  pub ingest_metrics-IsNear :
      IsFor server body.server_id
      → (IsNear now collected
          → (at : ℕ) × (s' : Session Cache) × (ingest_metrics server body s
              ≡ ok (record { server_id = server.id; at = at }, s'))
            × (s'.metrics.rows
                ≡ s.metrics.rows ++ new_metric server.id collected body s.metrics.next_id ∷ []))
        × (¬ (IsNear now collected) → ingest_metrics server body s ≡ err (app invalid_timestamp))
  unfolding ingest_metrics validate_timestamp utcnow read_clock Table.create
  ingest_metrics-IsNear m = (
    λ h.
        let f : is_skewed now collected ≡ false = ground arith in
        (
          s.agents.clock 1,
          record s {
            agents = record s.agents { clock = λ n. s.agents.clock (suc (suc n)) };
            metrics = (Table.create (new_metric server.id collected body) s.metrics).1;
          },
          rw (matches server s body.server_id m, f) refl,
          refl,
        ),
    λ h.
        let t : is_skewed now collected ≡ true = elim (Bool-cases (is_skewed now collected)) [
          | inl t ↦ t
          | inr f ↦ absurd (h (ground arith, ground arith))
        ] in
        rw (matches server s body.server_id m, t) refl,
  )
