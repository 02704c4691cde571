-- ===== src/Agents/Platform.antt =====
-- What the authentication of agents takes from outside: hashlib, base64, cryptography, and Redis.
-- Bytes are lists of numbers.
use ops_monitor.Common.Int.{ℤ}
use ops_monitor.Agents.Model.{ReplayKey}
use ops_monitor.Common.{String, List, ℕ, Option, ◌≡◌, some, Bool, true, ◌+◌, ◌*◌, ◌<◌, false}

pub record Platform (Cache : Type 0) : Type 0 where
  -- `str.encode`, `str.upper`, `int(text)` and `sha256(…).hexdigest()`
  pub encode : String → List ℕ
  pub upper : String → String
  pub int_of : String → Option ℤ
  pub sha256_hex : List ℕ → String
  -- `b64decode`, the same with `validate=True`, `Ed25519PublicKey.from_public_bytes`, and `verify`
  -- without an exception
  pub b64decode : String → Option (List ℕ)
  pub b64decode_strict : String → Option (List ℕ)
  pub public_key_of : List ℕ → Option (List ℕ)
  pub is_signed : (key signature message : List ℕ) → Bool
  -- `SET key 1 NX EX ttl` at a time in microseconds: whether the key was created. None is a RedisError.
  pub set_new : ReplayKey → (ttl_seconds : ℕ) → (now : ℕ) → Cache → Option (Bool × Cache)

-- What Redis documents of SET with NX and EX, where it evicts no key: a key that is created is held
-- until its time to live is over, by every later call, and a call on a key that is held creates
-- nothing.
pub record IsRedis {Cache : Type 0} (platform : Platform Cache) : Type 1 where
  pub Holds : Cache → ReplayKey → ℕ → Type 0
  pub created :
      (k : ReplayKey) (ttl now : ℕ) (c c' : Cache)
      → platform.set_new k ttl now c ≡ some (true, c')
      → Holds c' k (now + ttl * 1000000)
  pub kept :
      (k j : ReplayKey) (until ttl now : ℕ) (c c' : Cache) (b : Bool)
      → Holds c k until
      → platform.set_new j ttl now c ≡ some (b, c')
      → Holds c' k until
  pub refused :
      (k : ReplayKey) (until ttl now : ℕ) (c c' : Cache) (b : Bool)
      → Holds c k until
      → now < until
      → platform.set_new k ttl now c ≡ some (b, c')
      → b ≡ false
