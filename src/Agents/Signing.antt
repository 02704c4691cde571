-- ===== src/Agents/Signing.antt =====
-- backend/app/core/signing.py and core/replay.py.
use mathlib.Core.Option
use ops_monitor.Common.{
  is_some, List, String, ℕ, ◌++◌, Bool, Option, ◌∷◌, not, none, [], false, some,
}
use ops_monitor.Agents.Platform.{Platform}

module _ {Cache : Type 0} (platform : Platform Cache) where
  unfoldable pub body_sha256 : List ℕ → String
  body_sha256 body = platform.sha256_hex body

  -- The lines of the signed text, encoded one by one: UTF-8 encodes a text by its characters.
  unfoldable pub canonical_string :
      (method path timestamp request_id : String) → (body : List ℕ) → List ℕ
  unfolding body_sha256
  canonical_string method path timestamp request_id body =
      let line = λ (text : String). platform.encode text ++ b'\n' ∷ [] in
      line (platform.upper method)
      ++ line path
      ++ line timestamp
      ++ line request_id
      ++ platform.encode (body_sha256 body)

  -- Every exception is a false.
  unfoldable pub is_valid_public_key : (public_key_b64 : String) → Bool
  is_valid_public_key public_key_b64 = elim (platform.b64decode_strict public_key_b64) [
    | none ↦ false
    | some key_bytes ↦ is_some (platform.public_key_of key_bytes)
  ]

  unfoldable pub verify_signature :
      (public_key_b64 signature_b64 : String) → (canonical : List ℕ) → Bool
  verify_signature public_key_b64 signature_b64 canonical =
      elim (platform.b64decode public_key_b64) [
        | none ↦ false
        | some key_bytes ↦ elim (platform.public_key_of key_bytes) [
          | none ↦ false
          | some key ↦ elim (platform.b64decode signature_b64) [
            | none ↦ false
            | some signature ↦ platform.is_signed key signature canonical
          ]
        ]
      ]

  -- None where Redis raises.
  unfoldable pub is_replayed :
      (server_id : ℕ)
      → (request_id : String) → (ttl_seconds : ℕ) → (now : ℕ) → Cache
      → Option (Bool × Cache)
  is_replayed server_id request_id ttl_seconds now cache =
      Option.map (λ r. (not r.0, r.1))
        (platform.set_new (record { server_id = server_id; request_id = request_id }) ttl_seconds
          now cache)
