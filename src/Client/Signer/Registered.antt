-- ===== src/Client/Signer/Registered.antt =====
-- The first requests of an agent: `register` of backend/app/services/agent_service.py with the public
-- key of agent/signer.py, and the requests that the agent signs after it.
use ops_monitor.Protocol.Model.{heartbeat_entity}
use ops_monitor.Agents.Model.{token_entity}
use ops_monitor.Tasks.Retry.{text_or}
use ops_monitor.Common.Action.{ok, Action, ◌>>=◌, pure}
use ops_monitor.Protocol.Registration.{register_key, update_last_used, Registered}
use ops_monitor.Protocol.Statuses.{with_system_info}
use ops_monitor.Client.Signer.Accepted.{IsBearer}
use ops_monitor.Servers.{OpsServer, online, server_entity}
use ops_monitor.Agents.Model.{OpsAgentToken}
use ops_monitor.Protocol.Requests.{RegisterRequest}
use ops_monitor.Client.Signer.{AgentSigner, public_key_b64}
use ops_monitor.Client.Platform.{Crypto, IsEd25519}
use ops_monitor.Agents.Session.{Settings}
use ops_monitor.Protocol.Session.{Session}
use ops_monitor.Common.{◌≡◌, some, Option, String, suc, false}
use ops_monitor.Agents.Platform.{Platform}
use ops_monitor.Common.Table.{Entity, Table}
use ops_monitor.Common.Table
use ops_monitor.Protocol.Statuses.{breaks_address}

module _ {Cache : Type 0} (platform : Platform Cache) (settings : Settings) (crypto : Crypto)
    (laws : IsEd25519 platform crypto) (signer : AgentSigner) (body : RegisterRequest)
    (ip : Option String) (token : OpsAgentToken) (server : OpsServer) (s : Session Cache) where
  abbrev pub key : String
  key = public_key_b64 platform crypto signer

  -- The row of the server after `register_server`, and after the registration.
  abbrev pub registered_first : OpsServer
  registered_first = record (with_system_info body server) {
    registered_at = some (s.agents.clock 0);
    last_heartbeat_at = some (s.agents.clock 1);
    agent_status = online;
  }

  abbrev pub registered : OpsServer
  registered = record registered_first { ip_address = text_or ip server.ip_address }

  -- What the registration relies on: the token and the server are as for a signed request, and the
  -- body has the code of the server and the public key of the signer; and no other server has its
  -- port with its old address or with that of the request.
  pub record IsEnrolment : Type 0 where
    pub bearer : IsBearer platform settings crypto laws body.token token s.agents
    pub server_found : Table.get token.server_id s.agents.servers ≡ some server
    pub enabled : server.status ≡ 1
    pub coded : server.server_code ≡ body.server_code
    pub signer_coded : signer.server_code ≡ body.server_code
    pub has_key : body.signing_public_key ≡ some key
    pub old_address : breaks_address registered_first s.agents.servers ≡ false
    pub new_address : breaks_address registered s.agents.servers ≡ false

  -- The token `k` in the session `t'`, after its key is written in the session `t`.
  record IsKeyed (t : Session Cache) (k : OpsAgentToken) (t' : Session Cache) : Type 0 where
    runs : register_key platform settings token (some key) t ≡ ok (k, t')
    has_key : k.signing_public_key ≡ some key
    bearer : IsBearer platform settings crypto laws body.token k t'.agents
    of_server : k.server_id ≡ token.server_id
    kept : (t'.agents.servers ≡ t.agents.servers) × (t'.agents.cache ≡ t.agents.cache)

  -- The session when the key is written.
  abbrev before_key : Session Cache
  before_key = record s {
    agents = record s.agents {
      servers = Table.save registered (Table.save registered_first s.agents.servers);
      clock = λ n. s.agents.clock (suc (suc (suc n)));
    };
    heartbeats =
        (Table.create
          (λ id. record {
            id = id;
            server_id = server.id;
            agent_version = body.agent_version;
            ip_address = ip;
            collected_at = s.agents.clock 2;
          })
          s.heartbeats).1;
  }

  -- What follows the writing of the key.
  abbrev rest : OpsAgentToken → Action (Session Cache) Registered
  rest k =
      update_last_used k >>= λ _. pure (record { server_id = server.id; agent_status = online })
