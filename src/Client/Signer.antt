-- ===== src/Client/Signer.antt =====
-- agent/signer.py: `AgentSigner`.
pub mod Accepted
pub mod Registered
use ops_monitor.Client.Platform.{Crypto}
use ops_monitor.Agents.Platform.{Platform}
use ops_monitor.Common.{List, String, ℕ, ◌++◌, ◌∷◌, []}
use ops_monitor.Common.Table

pub record AgentSigner : Type 0 where
  pub private_key : List ℕ
  pub server_code : String

-- The four headers of `sign_headers`.
pub record SignedHeaders : Type 0 where
  pub agent_id : String
  pub timestamp : String
  pub request_id : String
  pub signature : String

module _ {Cache : Type 0} (platform : Platform Cache) (crypto : Crypto) where
  unfoldable pub public_key_b64 : AgentSigner → String
  public_key_b64 signer = crypto.b64encode (crypto.public_bytes signer.private_key)

  -- The text that is signed, encoded line by line: UTF-8 encodes a text by its characters.
  unfoldable pub canonical : (method path timestamp request_id : String) → (body : List ℕ) → List ℕ
  canonical method path timestamp request_id body =
      platform.encode (platform.upper method)
      ++ b'\n' ∷ []
      ++ platform.encode path
      ++ b'\n' ∷ []
      ++ platform.encode timestamp
      ++ b'\n' ∷ []
      ++ platform.encode request_id
      ++ b'\n' ∷ []
      ++ platform.encode (platform.sha256_hex body)

  -- At the time `now` in whole seconds, with the hexadecimal digits of a new UUID.
  unfoldable pub sign_headers :
      AgentSigner
      → (method path : String) → (body : List ℕ) → (now : ℕ) → (uuid : String) → SignedHeaders
  unfolding canonical
  sign_headers signer method path body now uuid =
      let timestamp = crypto.str_of now in
      record {
        agent_id = signer.server_code;
        timestamp = timestamp;
        request_id = uuid;
        signature =
            crypto.b64encode
              (crypto.sign signer.private_key (canonical method path timestamp uuid body));
      }
