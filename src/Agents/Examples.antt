-- ===== src/Agents/Examples.antt =====
-- A cache that keeps its keys, and sessions for the tests.
use ops_monitor.Servers.Examples.{web}
use ops_monitor.Common.Int.{pos}
use ops_monitor.Common.Text.{codes}
use ops_monitor.Agents.Session.{Settings, Session}
use ops_monitor.Agents.Platform.{Platform}
use ops_monitor.Common.{
  List, Bool, ℕ, true, some, ◌∷◌, ◌==◌, Option, none, [], ◌&&◌, false, any, str_eq, ◌+◌, ltb, ◌*◌,
}
use ops_monitor.Agents.Model.{token_entity, ReplayKey, OpsAgentToken}
use ops_monitor.Servers.{server_entity}

-- The keys, each with the time when it ends.
abbrev pub Keys : Type 0
Keys = List (ReplayKey × ℕ)

abbrev pub holds_now : ReplayKey → ℕ → ReplayKey × ℕ → Bool
holds_now k now p =
    p.0.server_id == k.server_id && str_eq p.0.request_id k.request_id && ltb now p.1

-- The answer, by whether the key is held.
abbrev pub answer : Bool → ReplayKey → ℕ → Keys → Option (Bool × Keys)
answer true k until c = some (false, c)
answer false k until c = some (true, (k, until) ∷ c)

abbrev pub set_key : ReplayKey → ℕ → ℕ → Keys → Option (Bool × Keys)
set_key k ttl now c = answer (any (holds_now k now) c) k (now + ttl * 1000000) c

-- Digests and signatures that are easy to compute.
abbrev pub simple : Platform Keys
simple = record {
  encode = codes;
  upper = λ text. text;
  int_of = λ text. some (pos 1000);
  sha256_hex = λ bytes. "digest";
  b64decode = λ text. some (codes text);
  b64decode_strict = λ text. some (codes text);
  public_key_of = λ bytes. some bytes;
  is_signed = λ key signature message. true;
  set_new = set_key;
}

abbrev pub strict : Settings
strict = record { agent_require_signature = true; agent_signature_max_skew = 300 }

abbrev pub web_token : OpsAgentToken
web_token = record {
  id = 1;
  server_id = 1;
  token_name = "default";
  token_prefix = "abcd";
  token_hash = "digest";
  signing_public_key = some "key";
  signing_algorithm = some "ed25519";
  key_registered_at = some 0;
  status = 1;
  expires_at = none;
  last_used_at = none;
  revoked_at = none;
}

abbrev pub at_start : Session Keys
at_start = record {
  tokens = record { rows = web_token ∷ []; next_id = 2 };
  servers = record { rows = web ∷ []; next_id = 2 };
  cache = [];
  clock = λ n. 1000000000 + n;
}
