-- ===== src/Agents/Resolve/Authentic.antt =====
-- What a request has that is accepted where signatures are required.
use ops_monitor.Common.Table.Laws.{id-get}
use ops_monitor.Exceptions.{app, agent_unauthorized, server_not_found}
use ops_monitor.Agents.Resolve.Verified.{IsVerified, verify_agent_signature_lem}
use ops_monitor.Common.Action.Post.{Post, Post-continue, Post-or_raise, Post-raise_if}
use ops_monitor.Agents.Resolve.Tokens.{IsLater, IsLive, authenticate_lem}
use ops_monitor.Common.{◌≡◌, true, some, not, ◌==◌, arith, refl}
use ops_monitor.Agents.Resolve.{resolve_agent, authenticate, verify_agent_signature}
use ops_monitor.Agents.Session.{Settings, Session}
use ops_monitor.Agents.Platform.{Platform}
use ops_monitor.Common.Table
use ops_monitor.Servers.{server_entity, OpsServer}
use ops_monitor.Agents.Model.{token_entity, AgentRequest, OpsAgentToken}
use ops_monitor.Common.Action.{or_raise, pure}

module _ {Cache : Type 0} (platform : Platform Cache) (settings : Settings) where
  -- What is known of an accepted request: `check` is the session in which its headers were checked.
  pub record IsAuthentic (request : AgentRequest) (s : Session Cache) (token : OpsAgentToken)
      (server : OpsServer) (s' : Session Cache) : Type 0 where
    pub check : Session Cache
    pub later : IsLater platform settings s check
    pub live : IsLive platform settings request s token
    pub own : server.id ≡ token.server_id
    pub enabled : server.status ≡ 1
    pub verified : IsVerified platform settings request token server check s'

  -- Where signatures are required, `_resolve_agent` returns a token and a server only if the text of
  -- the token hashes to its row, the row is active, not revoked and not past its expiry at the
  -- reading of the clock, the server is its own and is enabled, the request has the four headers, its agent is the server's code, its timestamp is
  -- within the skew of a reading of the clock, its signature verifies over the canonical text under
  -- the key of the row, and Redis created the key of the server and the request just then.
  pub resolve_agent-IsAuthentic :
      (request : AgentRequest) (s : Session Cache)
      → settings.agent_require_signature ≡ true
      → Post (λ r s'. IsAuthentic request s r.0 r.1 s') (resolve_agent platform settings request s)
  unfolding resolve_agent
  resolve_agent-IsAuthentic request s required =
      Post-continue
        (λ o t.
          IsLater platform settings s t
          × ((token : OpsAgentToken) → o ≡ some token → IsLive platform settings request s token))
        Q (authenticate platform settings request.token s) _
        (authenticate_lem platform settings request s)
        (λ o t h.
          Post-continue (λ token u. (u ≡ t) × (o ≡ some token)) Q
            (or_raise o (app agent_unauthorized) t) _
            (Post-or_raise (λ token u. (u ≡ t) × (o ≡ some token)) o (app agent_unauthorized) t
              (λ token q. (refl, q)))
            (λ token u k. rw k.0 (
              Post-continue
                (λ server v. (v ≡ t) × (Table.get token.server_id t.servers ≡ some server)) Q
                (or_raise (Table.get token.server_id t.servers) (app server_not_found) t) _
                (Post-or_raise
                  (λ server v. (v ≡ t) × (Table.get token.server_id t.servers ≡ some server))
                  (Table.get token.server_id t.servers) (app server_not_found) t
                  (λ server q. (refl, q)))
                (λ server v m. rw m.0 (
                  Post-raise_if Q (not (server.status == 1)) (app server_not_found) _ t (λ e.
                    Post-continue (λ _ s'. IsVerified platform settings request token server t s') Q
                      (verify_agent_signature platform settings request token server t)
                      (λ _. pure (token, server))
                      (verify_agent_signature_lem platform settings required request token server t)
                      (λ _ s' w. record {
                        check = t;
                        later = h.0;
                        live = h.1 token k.1;
                        own = id-get token.server_id t.servers m.1;
                        enabled = ground arith;
                        verified = w;
                      })))))))
    where
      Q : OpsAgentToken × OpsServer → Session Cache → Type 0
      Q r s' = IsAuthentic request s r.0 r.1 s'
