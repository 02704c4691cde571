-- ===== src/Protocol/Liveness.antt =====
-- The status of an agent: what a refresh makes of the last heartbeat, and what is counted after it.
pub mod Counts
use ops_monitor.Protocol.Assets.Keys.{and_true}
use ops_monitor.Protocol.Model.{heartbeat_entity}
use ops_monitor.Common.Table.Writes.{find-replace_same}
use ops_monitor.Agents.Session.{read_clock}
use ops_monitor.Common.Table.Laws.{Has-find}
use ops_monitor.Common.Action.{ok}
use ops_monitor.Protocol.Service.{heartbeat, normalize_utc}
use ops_monitor.Protocol.Reports.{IsFor, matches}
use ops_monitor.Tasks.Retry.{text_or, is_given}
use ops_monitor.Protocol.Session.{Session, utcnow}
use ops_monitor.Protocol.Requests.{HeartbeatRequest}
use ops_monitor.Common.Table.{Table, has_id}
use ops_monitor.Servers.{OpsServer, AgentStatus, server_entity, online, warning, offline}
use ops_monitor.Protocol.Statuses.{
  status_at, refresh_agent_statuses, refresh_status, is_enabled, update_last_heartbeat,
  record_heartbeat,
}
use ops_monitor.Common.{
  ℕ, Bool, some, ◌≡◌, if◌then◌else◌, arith, List, Bool-cases, Option, leb, find, String, ◌+◌, map,
  inl, ◌∷◌, inr, [], refl, ◌∙◌, ap, Option-cases, suc, not, is_some, true, ◌==◌,
}
use ops_monitor.Common.Table
use mathlib.Core.Option
use ops_monitor.Exceptions.{integrity_error}
use ops_monitor.Common.Action.{err}
use ops_monitor.Protocol.Statuses.{breaks_address}
use ops_monitor.Common.{false}

-- By the age of the heartbeat: at most 30 seconds, at most 90, or more.
abbrev pub by_age : (now at : ℕ) → AgentStatus
by_age now at =
    if leb now (at + 30000000) then online else if leb now (at + 90000000) then warning else offline

status_at-by_age : (now at : ℕ) → status_at now (some at) ≡ by_age now at
unfolding status_at
status_at-by_age now at = ground arith

find-map :
    {A : Type 0} (q : A → Bool) (f : A → A)
    → ((x : A) → q (f x) ≡ q x)
    → (xs : List A) → find q (map f xs) ≡ Option.map f (find q xs)
find-map q f h [] = refl
find-map q f h (x ∷ xs) =
    let i = find-map q f h xs in
    elim (Bool-cases (q x)) [ inl t ↦ rw (h x, t) refl | inr n ↦ rw (h x, n) i ]

refresh_keeps :
    (now k : ℕ) (x : OpsServer)
    → Table.visible (Table.has_id k) (refresh_status now x) ≡ Table.visible (Table.has_id k) x
refresh_keeps now k x = elim (Bool-cases (is_enabled x)) [ inl t ↦ rw t refl | inr n ↦ rw n refl ]

get-refresh :
    (now k : ℕ) (t : Table OpsServer)
    → Table.get k (refresh_agent_statuses now t).1 ≡ Option.map (refresh_status now) (Table.get k t)
unfolding refresh_agent_statuses Table.get
get-refresh now k t =
    find-map (Table.visible (Table.has_id k)) (refresh_status now) (refresh_keeps now k) t.rows

module _ {Cache : Type 0} (server : OpsServer) (body : HeartbeatRequest) (ip : Option String)
    (s : Session Cache) where
  -- The time of the heartbeat.
  abbrev pub heard : ℕ
  heard = s.agents.clock 0

  -- The row after the heartbeat.
  abbrev pub after : OpsServer
  after = record server {
    last_heartbeat_at = some heard;
    ip_address = text_or ip server.ip_address;
    agent_version =
        if is_given body.agent_version then body.agent_version else server.agent_version;
    agent_status = online;
  }

  heartbeat-after :
      IsFor server body.server_id
      → Table.get server.id s.agents.servers ≡ some server
      → breaks_address after s.agents.servers ≡ false
      → (at : ℕ) × (s' : Session Cache) × (heartbeat server body ip s
          ≡ ok (record { server_id = server.id; at = at }, s'))
        × (Table.get server.id s'.agents.servers ≡ some after)
  unfolding heartbeat utcnow read_clock update_last_heartbeat record_heartbeat Table.get Table.save
  heartbeat-after m g b = elim (Option-cases body.timestamp) [
    | inl n ↦ (
      s.agents.clock 2,
      heard_at (s.agents.clock 1) (λ k. s.agents.clock (suc (suc (suc k)))),
      rw (matches server s body.server_id m, n, b) refl,
      found,
    )
    | inr t ↦ (
      s.agents.clock 1,
      heard_at (normalize_utc t.0) (λ k. s.agents.clock (suc (suc k))),
      rw (matches server s body.server_id m, t.1, b) refl,
      found,
    )
  ]
    where
      -- The session after the heartbeat, with the readings of the clock that are left.
      heard_at : (collected : ℕ) → (clock : ℕ → ℕ) → Session Cache
      heard_at collected clock = record s {
        agents = record s.agents { servers = Table.save after s.agents.servers; clock = clock };
        heartbeats =
            (Table.create
              (λ id. record {
                id = id;
                server_id = server.id;
                agent_version = body.agent_version;
                ip_address = ip;
                collected_at = collected;
              })
              s.heartbeats).1;
      }

      found : Table.get server.id (Table.save after s.agents.servers) ≡ some after
      found =
          let h = Has-find (Table.visible (Table.has_id server.id)) s.agents.servers.rows g in
          find-replace_same (Table.visible (Table.has_id server.id)) after s.agents.servers.rows g
            refl h.1

  heartbeat-taken :
      IsFor server body.server_id
      → breaks_address after s.agents.servers ≡ true
      → heartbeat server body ip s ≡ err integrity_error
  unfolding heartbeat utcnow read_clock update_last_heartbeat
  heartbeat-taken m b = elim (Option-cases body.timestamp) [
    | inl n ↦ rw (matches server s body.server_id m, n, b) refl
    | inr t ↦ rw (matches server s body.server_id m, t.1, b) refl
  ]

  -- A heartbeat of an enabled server, for the server of its token, fails with an IntegrityError if
  -- another server, enabled or not, has the port and the address that it would give the row, which
  -- is the client's where one is known. Else it is answered, and a refresh at any later moment makes that server ONLINE up to 30 seconds after the heartbeat, WARNING up to 90
  -- seconds, and OFFLINE after that.
  pub heartbeat_then_refresh :
      IsFor server body.server_id
      → Table.get server.id s.agents.servers ≡ some server
      → server.status ≡ 1
      → (breaks_address after s.agents.servers ≡ true
          → heartbeat server body ip s ≡ err integrity_error)
        × (breaks_address after s.agents.servers ≡ false
            → (at : ℕ) × (s' : Session Cache) × (heartbeat server body ip s
                ≡ ok (record { server_id = server.id; at = at }, s'))
              × ((now : ℕ)
                  → Table.get server.id (refresh_agent_statuses now s'.agents.servers).1
                    ≡ some (record after { agent_status = by_age now heard })))
  unfolding Table.get
  heartbeat_then_refresh m g e = (
    heartbeat-taken m,
    λ b.
        let h = heartbeat-after m g b in
        let v = Has-find (Table.visible (Table.has_id server.id)) s.agents.servers.rows g in
        (
          h.0,
          h.1,
          h.2,
          λ now.
              get-refresh now server.id h.1.agents.servers
              ∙ ap (Option.map (refresh_status now)) h.3
              ∙ ap some (
                  refreshed now
                    (and_true (server.id == server.id) (not (is_some server.deleted_at)) v.1).1),
        ),
  )
    where
      refreshed :
          (now : ℕ)
          → not (is_some server.deleted_at) ≡ true
          → refresh_status now after ≡ record after { agent_status = by_age now heard }
      refreshed now d = rw (e, d, status_at-by_age now heard) refl
