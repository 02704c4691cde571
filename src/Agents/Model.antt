-- ===== src/Agents/Model.antt =====
-- The rows of `ops_agent_token` of backend/app/models/server.py, and a request of an agent.
use ops_monitor.Common.Table.{Entity}
use ops_monitor.Common.{ℕ, String, Option, false, List}

pub record OpsAgentToken : Type 0 where
  pub id : ℕ
  pub server_id : ℕ
  pub token_name : String
  pub token_prefix : String
  pub token_hash : String
  pub signing_public_key : Option String
  pub signing_algorithm : Option String
  pub key_registered_at : Option ℕ
  pub status : ℕ
  pub expires_at : Option ℕ
  pub last_used_at : Option ℕ
  pub revoked_at : Option ℕ

instance abbrev pub token_entity : Entity OpsAgentToken
token_entity = record { id_of = λ t. t.id; is_deleted = λ _. false }

-- The four headers of a signature, each of which may be missing.
pub record AgentRequest : Type 0 where
  pub token : String
  pub method : String
  pub path : String
  pub body : List ℕ
  pub agent_id : Option String
  pub timestamp : Option String
  pub request_id : Option String
  pub signature : Option String

-- `agent:sig:{server_id}:{request_id}`, by the parts that it determines: a number holds no colon.
pub record ReplayKey : Type 0 where
  pub server_id : ℕ
  pub request_id : String
