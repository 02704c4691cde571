-- ===== src/Protocol/Handlers.antt =====
-- backend/app/api/v1/agent.py: the handlers that agents call, each with the authentication that its
-- dependency makes. The bodies are parsed, and the client's address found, by FastAPI and
-- utils/request.py.
use ops_monitor.Agents.Resolve.{resolve_agent}
use ops_monitor.Protocol.Session.{on_agents}
use ops_monitor.Common.Action.{◌>>=◌}
use ops_monitor.Servers.{OpsServer}
use ops_monitor.Protocol.Service.{heartbeat, ingest_metrics, sync_assets, sync_services}
use ops_monitor.Common.{Option, String}
use ops_monitor.Common.Action.{Action, ◌>>◌, pure}
use ops_monitor.Protocol.Registration.{register, rotate_signing_key}
use ops_monitor.Protocol.Requests.{
  RegisterRequest, HeartbeatRequest, MetricsRequest, AssetsRequest, ServicesRequest,
}
use ops_monitor.Agents.Model.{AgentRequest, OpsAgentToken}
use ops_monitor.Agents.Session.{Settings}
use ops_monitor.Protocol.Session.{Session}
use ops_monitor.Agents.Platform.{Platform}

-- The requests of the protocol. The one for a registration is not signed.
pub data Call : Type 0 where
  register_call : RegisterRequest → (ip : Option String) → Call
  signing_key_call : AgentRequest → (public_key : String) → Call
  heartbeat_call : AgentRequest → HeartbeatRequest → (ip : Option String) → Call
  metrics_call : AgentRequest → MetricsRequest → Call
  assets_call : AgentRequest → AssetsRequest → Call
  services_call : AgentRequest → ServicesRequest → Call

-- `get_agent_server` and `get_agent_token` of backend/app/api/v1/deps.py
module _ {Cache : Type 0} (platform : Platform Cache) (settings : Settings) where
  unfoldable pub get_agent_server : AgentRequest → Action (Session Cache) OpsServer
  get_agent_server request = do
    resolved ← on_agents (resolve_agent platform settings request)
    pure resolved.1

  unfoldable pub get_agent_token : AgentRequest → Action (Session Cache) OpsAgentToken
  get_agent_token request = do
    resolved ← on_agents (resolve_agent platform settings request)
    pure resolved.0

  unfoldable pub respond : Call → Action (Session Cache) (Unit {0})
  unfolding get_agent_server get_agent_token register rotate_signing_key heartbeat ingest_metrics
      sync_assets sync_services
  respond (register_call body ip) = register platform settings body ip >> pure tt
  respond (signing_key_call request public_key) = do
    token ← get_agent_token request
    rotate_signing_key platform settings token public_key
  respond (heartbeat_call request body ip) = do
    server ← get_agent_server request
    heartbeat server body ip
    pure tt
  respond (metrics_call request body) = do
    server ← get_agent_server request
    ingest_metrics server body
    pure tt
  respond (assets_call request body) = do
    server ← get_agent_server request
    sync_assets server body
    pure tt
  respond (services_call request body) = do
    server ← get_agent_server request
    sync_services server body
    pure tt
