-- ===== src/Protocol/Registration.antt =====
-- backend/app/services/agent_service.py: `register` and `rotate_signing_key`, with the writes of
-- `AgentTokenRepository` of repositories/server_repository.py.
use ops_monitor.Agents.Session.{Settings}
use ops_monitor.Exceptions.{app, bad_request, agent_unauthorized, server_not_found}
use ops_monitor.Agents.Model.{token_entity}
use ops_monitor.Common.Action.{◌>>◌, raise_if, or_raise, gets}
use ops_monitor.Common.Action.{◌>>=◌}
use ops_monitor.Agents.Signing.{is_valid_public_key}
use ops_monitor.Protocol.Requests.{RegisterRequest}
use ops_monitor.Tasks.Retry.{text_or, is_given}
use ops_monitor.Common.Table
use ops_monitor.Protocol.Statuses.{register_server, record_heartbeat, save_server}
use ops_monitor.Servers.{online, server_entity}
use ops_monitor.Agents.Resolve.{hash_token, authenticate}
use ops_monitor.Common.Action.{Action, ok, pure}
use ops_monitor.Servers.{AgentStatus, OpsServer}
use ops_monitor.Agents.Platform.{Platform}
use ops_monitor.Protocol.Session.{utcnow, Session, on_agents}
use ops_monitor.Agents.Model.{OpsAgentToken}
use ops_monitor.Common.{
  String, ℕ, Option, Bool, true, none, some, not, if◌then◌else◌, str_eq, ◌&&◌, ◌==◌,
}

-- `data.signing_public_key != token.signing_public_key`
abbrev pub is_other_key : (public_key : String) → Option String → Bool
is_other_key public_key none = true
is_other_key public_key (some old) = not (str_eq public_key old)

-- What a registration is answered with.
pub record Registered : Type 0 where
  pub server_id : ℕ
  pub agent_status : AgentStatus

-- A changed token, flushed.
abbrev pub save_token : {Cache : Type 0} → OpsAgentToken → Action (Session Cache) OpsAgentToken
save_token token s =
    ok (token, record s { agents = record s.agents { tokens = Table.save token s.agents.tokens } })

module _ {Cache : Type 0} where
  -- `token_repo.update` with a public key, as the two callers write it
  unfoldable pub update_key :
      OpsAgentToken → (public_key : String) → Action (Session Cache) OpsAgentToken
  unfolding utcnow
  update_key token public_key = do
    now ← utcnow
    save_token (record token {
      signing_public_key = some public_key;
      signing_algorithm = some "ed25519";
      key_registered_at = some now;
    })

  unfoldable pub update_last_used : OpsAgentToken → Action (Session Cache) OpsAgentToken
  unfolding utcnow
  update_last_used token = do now ← utcnow; save_token (record token { last_used_at = some now })

  unfoldable pub revoke : OpsAgentToken → Action (Session Cache) OpsAgentToken
  unfolding utcnow
  revoke token = do now ← utcnow; save_token (record token { status = 0; revoked_at = some now })

module _ {Cache : Type 0} (platform : Platform Cache) (settings : Settings) where
  -- The `plaintext` is what `secrets.token_urlsafe(32)` returns, with its first eight characters.
  unfoldable pub create_token :
      (plaintext prefix : String)
      → (server_id : ℕ) → (token_name : Option String) → Action (Session Cache) OpsAgentToken
  unfolding hash_token
  create_token plaintext prefix server_id token_name s =
      let created =
        Table.create
          (λ id. record {
            id = id;
            server_id = server_id;
            token_name = text_or token_name "default";
            token_prefix = prefix;
            token_hash = hash_token platform settings plaintext;
            signing_public_key = none;
            signing_algorithm = some "ed25519";
            key_registered_at = none;
            status = 1;
            expires_at = none;
            last_used_at = none;
            revoked_at = none;
          })
          s.agents.tokens in
      ok (created.0, record s { agents = record s.agents { tokens = created.1 } })

  -- The key of a registration replaces any other.
  unfoldable pub register_key : OpsAgentToken → Option String → Action (Session Cache) OpsAgentToken
  unfolding update_key
  register_key token none = pure token
  register_key token (some public_key) =
      if is_given (some public_key)
        && (is_valid_public_key platform public_key
            && is_other_key public_key token.signing_public_key)
      then update_key token public_key
      else pure token

  -- `if ip: server.ip_address = ip`, which the next flush writes
  abbrev pub set_address : OpsServer → Option String → Action (Session Cache) OpsServer
  set_address server ip = save_server (record server { ip_address = text_or ip server.ip_address })

  unfoldable pub register :
      RegisterRequest → (ip : Option String) → Action (Session Cache) Registered
  unfolding register_server record_heartbeat register_key update_last_used
  register body ip = do
    found ← on_agents (authenticate platform settings body.token)
    token ← or_raise found (app agent_unauthorized)
    server_found ← gets (λ s. Table.get token.server_id s.agents.servers)
    server ← or_raise server_found (app server_not_found)
    raise_if (not (server.status == 1)) (app server_not_found)
    raise_if (not (str_eq server.server_code body.server_code)) (app agent_unauthorized)
    registered ← register_server server body
    addressed ← set_address registered ip
    record_heartbeat addressed.id body.agent_version ip none
    keyed ← register_key token body.signing_public_key
    update_last_used keyed
    pure (record { server_id = addressed.id; agent_status = online })

  unfoldable pub rotate_signing_key :
      OpsAgentToken → (public_key : String) → Action (Session Cache) (Unit {0})
  unfolding update_key
  rotate_signing_key token public_key = do
    raise_if (not (is_valid_public_key platform public_key)) (app bad_request)
    update_key token public_key
    pure tt
