-- ===== src/Agents/Resolve.antt =====
-- `_resolve_agent` and `_verify_agent_signature` of backend/app/api/v1/deps.py, with
-- `AgentTokenRepository.authenticate` of repositories/server_repository.py.
pub mod Verified
pub mod Tokens
pub mod Authentic
pub mod Replay
use ops_monitor.Tasks.Retry.{is_given}
use ops_monitor.Agents.Model.{token_entity}
use ops_monitor.Agents.Signing.{is_replayed, canonical_string, verify_signature}
use ops_monitor.Servers.{OpsServer, server_entity}
use ops_monitor.Common.Action.{◌>>=◌, ◌>>◌, gets, raise_if, or_raise, modify}
use ops_monitor.Common.Int.{ℤ, leb_ℤ, pos, neg_part, pos_part}
use ops_monitor.Common.Action.{Action, raise, pure}
use ops_monitor.Agents.Model.{AgentRequest, OpsAgentToken}
use ops_monitor.Exceptions.{
  ErrorCode, agent_signature_missing, app, agent_unauthorized, agent_signature_invalid,
  server_not_found, agent_request_replayed, agent_timestamp_invalid,
}
use ops_monitor.Common.{
  String, ℕ, Option, Bool, if◌then◌else◌, none, not, ◌==◌, ◌+◌, some, ◌&&◌, false, leb, is_some,
  ltb, str_eq, ◌*◌, ◌/◌, or_else,
}
use ops_monitor.Agents.Session.{Settings, read_clock, Session}
use ops_monitor.Agents.Platform.{Platform}
use ops_monitor.Common.Table

module _ {Cache : Type 0} (platform : Platform Cache) (settings : Settings) where
  unfoldable pub hash_token : String → String
  hash_token token = platform.sha256_hex (platform.encode token)

  -- The clock is read only where the token expires.
  unfoldable pub is_live : OpsAgentToken → Action (Session Cache) Bool
  unfolding read_clock
  is_live token = if not (token.status == 1) then pure false else elim token.expires_at [
    | none ↦ pure (not (is_some token.revoked_at))
    | some at ↦ (do now ← read_clock; pure (not (ltb at now) && not (is_some token.revoked_at)))
  ]

  unfoldable pub authenticate : String → Action (Session Cache) (Option OpsAgentToken)
  unfolding hash_token is_live
  authenticate plaintext = do
    found ← gets (λ s. Table.get_by (λ t. str_eq t.token_hash (hash_token plaintext)) s.tokens)
    elim found [
      | none ↦ pure none
      | some token ↦ (do live ← is_live token; pure (if live then some token else none))
    ]

  -- `abs(int(time.time()) - timestamp) <= AGENT_SIGNATURE_MAX_SKEW`, at whole seconds
  unfoldable pub is_fresh : (seconds : ℕ) → ℤ → Bool
  is_fresh seconds timestamp =
      leb_ℤ timestamp (pos (seconds + settings.agent_signature_max_skew))
      && leb (seconds + neg_part timestamp) (pos_part timestamp + settings.agent_signature_max_skew)

  -- What follows where a check is only made if the signature is required.
  unfoldable pub unless_required : ErrorCode → Action (Session Cache) (Unit {0})
  unless_required code = if settings.agent_require_signature then raise (app code) else pure tt

  -- What follows the call of `is_replayed`; none is a RedisError.
  unfoldable pub after_replay : Option (Bool × Cache) → Action (Session Cache) (Unit {0})
  unfolding unless_required
  after_replay none = unless_required agent_signature_invalid
  after_replay (some (replayed, cache)) = do
    raise_if replayed (app agent_request_replayed)
    modify (λ s. record s { cache = cache })

  unfoldable pub check_replay : OpsServer → String → Action (Session Cache) (Unit {0})
  unfolding read_clock after_replay
  check_replay server request_id = do
    now ← read_clock
    cache ← gets (λ s. s.cache)
    after_replay (
        is_replayed platform server.id request_id (settings.agent_signature_max_skew * 2) now cache)

  -- The checks on a request that has the four headers.
  unfoldable pub verify_headers :
      AgentRequest
      → OpsAgentToken
      → OpsServer
      → (agent_id timestamp request_id signature : String) → Action (Session Cache) (Unit {0})
  unfolding is_fresh unless_required check_replay read_clock
  verify_headers request token server agent_id timestamp request_id signature = do
    raise_if (not (str_eq agent_id server.server_code)) (app agent_signature_invalid)
    at ← or_raise (platform.int_of timestamp) (app agent_timestamp_invalid)
    now ← read_clock
    raise_if (not (is_fresh (now / 1000000) at)) (app agent_timestamp_invalid)
    if not (is_given token.signing_public_key) then unless_required agent_signature_invalid else (do
      let canonical =
          canonical_string platform request.method request.path timestamp request_id request.body
      raise_if
          (not
            (verify_signature platform (or_else token.signing_public_key "") signature canonical))
          (app agent_signature_invalid)
      check_replay server request_id)

  unfoldable pub verify_agent_signature :
      AgentRequest → OpsAgentToken → OpsServer → Action (Session Cache) (Unit {0})
  unfolding verify_headers unless_required
  verify_agent_signature request token server = elim request.agent_id [
    | none ↦ unless_required agent_signature_missing
    | some agent_id ↦ elim request.timestamp [
      | none ↦ unless_required agent_signature_missing
      | some timestamp ↦ elim request.request_id [
        | none ↦ unless_required agent_signature_missing
        | some request_id ↦ elim request.signature [
          | none ↦ unless_required agent_signature_missing
          | some signature ↦
              verify_headers request token server agent_id timestamp request_id signature
        ]
      ]
    ]
  ]

  unfoldable pub resolve_agent : AgentRequest → Action (Session Cache) (OpsAgentToken × OpsServer)
  unfolding authenticate verify_agent_signature
  resolve_agent request = do
    found ← authenticate request.token
    token ← or_raise found (app agent_unauthorized)
    server_found ← gets (λ s. Table.get token.server_id s.servers)
    server ← or_raise server_found (app server_not_found)
    raise_if (not (server.status == 1)) (app server_not_found)
    verify_agent_signature request token server
    pure (token, server)
