-- ===== src/Client/Platform.antt =====
-- What the agent takes from outside to sign: cryptography, base64, and `str` of a number. Bytes are
-- lists of numbers.
use ops_monitor.Common.Int.{pos}
use ops_monitor.Common.{List, ℕ, String, ◌≡◌, some, str_eq, false, true}
use ops_monitor.Agents.Platform.{Platform}

pub record Crypto : Type 0 where
  -- `Ed25519PrivateKey.sign`, and the raw bytes of its `public_key()`
  pub sign : (private_key message : List ℕ) → List ℕ
  pub public_bytes : (private_key : List ℕ) → List ℕ
  -- `b64encode(…).decode("ascii")`
  pub b64encode : List ℕ → String
  -- `str` of a number that is not negative
  pub str_of : ℕ → String

-- What cryptography, base64 and Python document of them and of their counterparts on the server.
pub record IsEd25519 {Cache : Type 0} (platform : Platform Cache) (crypto : Crypto) : Type 0 where
  pub decoded : (bytes : List ℕ) → platform.b64decode (crypto.b64encode bytes) ≡ some bytes
  pub decoded_strict :
      (bytes : List ℕ) → platform.b64decode_strict (crypto.b64encode bytes) ≡ some bytes
  -- 32 bytes, so that their base64 is not empty
  pub public_key :
      (private_key : List ℕ)
      → platform.public_key_of (crypto.public_bytes private_key)
        ≡ some (crypto.public_bytes private_key)
  pub not_empty :
      (private_key : List ℕ)
      → str_eq (crypto.b64encode (crypto.public_bytes private_key)) "" ≡ false
  pub verifies :
      (private_key message : List ℕ)
      → platform.is_signed
          (crypto.public_bytes private_key)
          (crypto.sign private_key message)
          message
        ≡ true
  pub parsed : (n : ℕ) → platform.int_of (crypto.str_of n) ≡ some (pos n)
