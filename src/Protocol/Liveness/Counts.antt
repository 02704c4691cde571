-- ===== src/Protocol/Liveness/Counts.antt =====
-- The counts of the servers by the status of their agent, after a refresh.
use ops_monitor.Common.Table.{Table}
use ops_monitor.Common.{
  ℕ, Option, List, ◌≡◌, Bool, map, ◌⊎◌, ◌&&◌, false, ◌+◌, length, arith, inr, true, filter,
  Bool-cases, ◌∷◌, some, refl, leb, inl, [], ◌-◌, ◌*◌, none, ◌==◌,
}
use ops_monitor.Servers.{AgentStatus, OpsServer, unknown, online, warning, offline, server_entity}
use ops_monitor.Protocol.Statuses.{
  status_at, refresh_agent_statuses, get_status_counts, count_status, is_enabled, refresh_status,
  same_agent_status,
}
use ops_monitor.Common.Table

status_at-cases :
    (now : ℕ) (o : Option ℕ)
    → (status_at now o ≡ online) ⊎ (status_at now o ≡ warning) ⊎ (status_at now o ≡ offline)
unfolding status_at
status_at-cases now none = inr (inr refl)
status_at-cases now (some at) = elim (Bool-cases (leb (now - 30 * 1000000) at)) [
  | inl t ↦ inl (rw t refl)
  | inr n ↦ elim (Bool-cases (leb (now - 90 * 1000000) at)) [
    | inl t ↦ inr (inl (rw (n, t) refl))
    | inr f ↦ inr (inr (rw (n, f) refl))
  ]
]

-- One server, as it is counted after the refresh.
abbrev counts_as : AgentStatus → OpsServer → Bool
counts_as status s = is_enabled s && same_agent_status status s.agent_status

-- An enabled server is counted in one of three counts, and another server in none.
counted_once :
    (now : ℕ) (x : OpsServer)
    → (counts_as unknown (refresh_status now x) ≡ false)
      × (((is_enabled x ≡ false)
            × (counts_as online (refresh_status now x) ≡ false)
            × (counts_as warning (refresh_status now x) ≡ false)
            × (counts_as offline (refresh_status now x) ≡ false))
          ⊎ ((is_enabled x ≡ true)
              × (((counts_as online (refresh_status now x) ≡ true)
                    × (counts_as warning (refresh_status now x) ≡ false)
                    × (counts_as offline (refresh_status now x) ≡ false))
                  ⊎ ((counts_as online (refresh_status now x) ≡ false)
                      × (counts_as warning (refresh_status now x) ≡ true)
                      × (counts_as offline (refresh_status now x) ≡ false))
                  ⊎ ((counts_as online (refresh_status now x) ≡ false)
                      × (counts_as warning (refresh_status now x) ≡ false)
                      × (counts_as offline (refresh_status now x) ≡ true)))))
counted_once now x = elim (Bool-cases (is_enabled x)) [
  | inr n ↦ (rw (n, n) refl, inl (n, rw (n, n) refl, rw (n, n) refl, rw (n, n) refl))
  | inl t ↦ elim (status_at-cases now x.last_heartbeat_at) [
    | inl q ↦
        (rw (t, t, q) refl, inr (t, inl (rw (t, t, q) refl, rw (t, t, q) refl, rw (t, t, q) refl)))
    | inr r ↦ elim r [
      | inl q ↦ (
        rw (t, t, q) refl,
        inr (t, inr (inl (rw (t, t, q) refl, rw (t, t, q) refl, rw (t, t, q) refl))),
      )
      | inr q ↦ (
        rw (t, t, q) refl,
        inr (t, inr (inr (rw (t, t, q) refl, rw (t, t, q) refl, rw (t, t, q) refl))),
      )
    ]
  ]
]

counts_add :
    (now : ℕ) (xs : List OpsServer)
    → (count_status unknown (map (refresh_status now) xs) ≡ 0)
      × (count_status online (map (refresh_status now) xs)
            + count_status warning (map (refresh_status now) xs)
            + count_status offline (map (refresh_status now) xs)
          ≡ length (filter is_enabled xs))
counts_add now [] = (refl, refl)
counts_add now (x ∷ xs) = let i = counts_add now xs in let c = counted_once now x in ground arith

-- A refresh leaves no enabled server with the status UNKNOWN: the counts that follow it add up to the
-- number of rows that it matched, which are the enabled servers that are not deleted.
pub refresh-counts :
    (now : ℕ) (t : Table OpsServer)
    → ((get_status_counts (refresh_agent_statuses now t).1).unknown ≡ 0)
      × ((get_status_counts (refresh_agent_statuses now t).1).total
          ≡ (refresh_agent_statuses now t).0)
      × ((refresh_agent_statuses now t).0 ≡ length (Table.list_all (λ s. s.status == 1) t))
unfolding refresh_agent_statuses get_status_counts Table.list_all
refresh-counts now t = let i = counts_add now t.rows in (i.0, omega (arith, i), refl)
