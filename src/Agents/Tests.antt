-- ===== src/Agents/Tests.antt =====
-- A cache that keeps what IsRedis asks, and the theorems on it at concrete requests.
use ops_monitor.Agents.Examples.{Keys, simple, answer, holds_now, strict, at_start}
use ops_monitor.Common.Table.Elements.{Has-any}
use ops_monitor.Agents.Resolve.Replay.{resolve_all, replay_rejected}
use ops_monitor.Agents.Resolve.{resolve_agent}
use ops_monitor.Agents.Resolve.Authentic.{IsAuthentic, resolve_agent-IsAuthentic}
use ops_monitor.Common.Table.Laws.{Has}
use ops_monitor.Common.Action.Post.{Post}
use ops_monitor.Agents.Platform.{IsRedis}
use ops_monitor.Common.{
  ℕ, true, some, [], ◌∷◌, ◌≢◌, Bool, ◌+◌, ◌<◌, ◌*◌, any, false, refl, ◌≡◌, arith, subst, ==_refl,
  inl, inr, eq_refl,
}
use ops_monitor.Servers.{server_entity}
use ops_monitor.Agents.Model.{token_entity, ReplayKey, AgentRequest}

created_key :
    (k : ReplayKey) (e : ℕ) (c c' : Keys) (b : Bool)
    → answer b k e c ≡ some (true, c')
    → Has (k, e) c'
created_key k e c c' true q = cc
created_key k e c c' false q = let p : (k, e) ∷ c ≡ c' = cc in subst (Has (k, e)) p (inl refl)

kept_key :
    (k j : ReplayKey) (u e : ℕ) (c c' : Keys) (b d : Bool)
    → Has (k, u) c
    → answer b j e c ≡ some (d, c')
    → Has (k, u) c'
kept_key k j u e c c' true d h q = let p : c ≡ c' = cc in subst (Has (k, u)) p h
kept_key k j u e c c' false d h q = let p : (j, e) ∷ c ≡ c' = cc in subst (Has (k, u)) p (inr h)

refused_key :
    (k : ReplayKey) (u e now : ℕ) (c c' : Keys) (d : Bool)
    → Has (k, u) c
    → now < u
    → answer (any (holds_now k now) c) k e c ≡ some (d, c')
    → d ≡ false
refused_key k u e now c c' d h l q =
    let t : holds_now k now (k, u) ≡ true =
      rw (==_refl k.server_id, eq_refl k.request_id) (ground arith) in
    let a : any (holds_now k now) c ≡ true = Has-any (holds_now k now) (k, u) c h t in
    let p : some (false, c) ≡ some (d, c') = subst (λ b. answer b k e c ≡ some (d, c')) a q in cc

simple-IsRedis : IsRedis simple
simple-IsRedis = record {
  Holds = λ c k u. Has (k, u) c;
  created =
      λ k ttl now c c' q. created_key k (now + ttl * 1000000) c c' (any (holds_now k now) c) q;
  kept = λ k j u ttl now c c' b h q.
      kept_key k j u (now + ttl * 1000000) c c' (any (holds_now j now) c) b h q;
  refused = λ k u ttl now c c' b h l q. refused_key k u (now + ttl * 1000000) now c c' b h l q;
}

abbrev report : AgentRequest
report = record {
  token = "abcdefgh";
  method = "POST";
  path = "/api/v1/agent/heartbeat";
  body = [];
  agent_id = some "web";
  timestamp = some "1000";
  request_id = some "r1";
  signature = some "signature";
}

resolve_agent-IsAuthentic_example :
    Post
      (λ r s'. IsAuthentic simple strict report at_start r.0 r.1 s')
      (resolve_agent simple strict report at_start)
resolve_agent-IsAuthentic_example = resolve_agent-IsAuthentic simple strict report at_start refl

replay_rejected_example :
    Post
      (λ r s'.
        Post
          (λ r' _. r'.1.id ≢ r.1.id)
          (resolve_agent simple strict report
            (record (resolve_all simple strict
              ((λ n. 1100000000 + n, record report { request_id = some "r2" }) ∷ [])
              s') { clock = λ n. 1200000000 })))
      (resolve_agent simple strict report at_start)
replay_rejected_example =
    replay_rejected simple strict simple-IsRedis refl report report
      ((λ n. 1100000000 + n, record report { request_id = some "r2" }) ∷ []) at_start
      (λ n. 1200000000) 1000000000 refl (λ n. omega arith) (λ n. omega arith)
