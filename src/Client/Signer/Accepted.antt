-- ===== src/Client/Signer/Accepted.antt =====
-- A request that agent/signer.py signs, as `_resolve_agent` of backend/app/api/v1/deps.py sees it.
use ops_monitor.Agents.Model.{token_entity}
use ops_monitor.Common.Int.{pos}
use ops_monitor.Servers.{OpsServer, server_entity}
use ops_monitor.Common.Action.{ok}
use ops_monitor.Agents.Resolve.{
  authenticate, is_live, verify_agent_signature, resolve_agent, verify_headers, hash_token,
  check_replay, after_replay, is_fresh,
}
use ops_monitor.Agents.Signing.{verify_signature, canonical_string, body_sha256, is_replayed}
use ops_monitor.Agents.Model.{AgentRequest, OpsAgentToken}
use ops_monitor.Client.Signer.{SignedHeaders, canonical, sign_headers, public_key_b64, AgentSigner}
use ops_monitor.Client.Platform.{Crypto, IsEd25519}
use ops_monitor.Agents.Session.{Settings, Session, read_clock}
use ops_monitor.Agents.Platform.{Platform}
use ops_monitor.Common.{
  String, List, ℕ, some, ◌≡◌, true, ◌++◌, ◌≤◌, ◌∷◌, str_eq, ◌+◌, [], ◌/◌, none, ◌*◌, refl, suc,
  arith, eq_refl, ◌∙◌, subst, ap,
}
use ops_monitor.Common.Table

-- The request that carries the headers.
abbrev pub signed_request :
    (bearer method path : String) → (body : List ℕ) → SignedHeaders → AgentRequest
signed_request bearer method path body headers = record {
  token = bearer;
  method = method;
  path = path;
  body = body;
  agent_id = some headers.agent_id;
  timestamp = some headers.timestamp;
  request_id = some headers.request_id;
  signature = some headers.signature;
}

append_assoc : (xs ys zs : List ℕ) → (xs ++ ys) ++ zs ≡ xs ++ (ys ++ zs)
append_assoc [] ys zs = refl
append_assoc (x ∷ xs) ys zs = rw (append_assoc xs ys zs) refl

module _ {Cache : Type 0} (platform : Platform Cache) (settings : Settings) (crypto : Crypto)
    (laws : IsEd25519 platform crypto) where
  -- The agent and the server sign the same bytes.
  canonical-agrees :
      (method path timestamp request_id : String) (body : List ℕ)
      → canonical platform crypto method path timestamp request_id body
        ≡ canonical_string platform method path timestamp request_id body
  unfolding canonical canonical_string body_sha256
  canonical-agrees method path timestamp request_id body =
      let u = platform.encode (platform.upper method) in
      let p = platform.encode path in
      let t = platform.encode timestamp in
      let r = platform.encode request_id in
      let d = platform.encode (platform.sha256_hex body) in
      let n = b'\n' ∷ [] in
      ap (λ x. (((((x ++ t) ++ n) ++ r) ++ n) ++ d)) (append_assoc (u ++ n) p n)
      ∙ ap (λ x. (((x ++ r) ++ n) ++ d)) (append_assoc ((u ++ n) ++ (p ++ n)) t n)
      ∙ ap (λ x. x ++ d) (append_assoc (((u ++ n) ++ (p ++ n)) ++ (t ++ n)) r n)

  key-verifies :
      (signer : AgentSigner) (m : List ℕ)
      → verify_signature platform
          (public_key_b64 platform crypto signer)
          (crypto.b64encode (crypto.sign signer.private_key m))
          m
        ≡ true
  unfolding verify_signature public_key_b64
  key-verifies signer m =
      let a = laws.decoded (crypto.public_bytes signer.private_key) in
      let b = laws.public_key signer.private_key in
      let c = laws.decoded (crypto.sign signer.private_key m) in
      let d = laws.verifies signer.private_key m in ground (arith, a, b, c, d)

  signature-verifies :
      (signer : AgentSigner) (method path : String) (body : List ℕ) (now : ℕ) (uuid : String)
      → verify_signature platform
          (public_key_b64 platform crypto signer)
          (sign_headers platform crypto signer method path body now uuid).signature
          (canonical_string platform method path (crypto.str_of now) uuid body)
        ≡ true
  unfolding sign_headers
  signature-verifies signer method path body now uuid =
      let m = canonical platform crypto method path (crypto.str_of now) uuid body in
      subst
        (λ c.
          verify_signature platform (public_key_b64 platform crypto signer)
            (crypto.b64encode (crypto.sign signer.private_key m)) c
          ≡ true)
        (canonical-agrees method path (crypto.str_of now) uuid body) (key-verifies signer m)

  -- The token authenticates with the bearer text, and does not expire.
  pub record IsBearer (bearer : String) (token : OpsAgentToken) (s : Session Cache) : Type 0 where
    pub found :
        Table.get_by (λ t. str_eq t.token_hash (hash_token platform settings bearer)) s.tokens
        ≡ some token
    pub enabled : token.status ≡ 1
    pub unlimited : token.expires_at ≡ none
    pub not_revoked : token.revoked_at ≡ none

  pub authenticate-IsBearer :
      (bearer : String) (token : OpsAgentToken) (s : Session Cache)
      → IsBearer bearer token s
      → authenticate platform settings bearer s ≡ ok (some token, s)
  unfolding authenticate is_live
  authenticate-IsBearer bearer token s b = rw (b.found, b.enabled, b.unlimited, b.not_revoked) refl

  -- The clocks of the agent and the server differ by no more than the skew that is allowed.
  abbrev pub InStep : (server_seconds agent_seconds : ℕ) → Type 0
  InStep server_seconds agent_seconds =
      (agent_seconds ≤ server_seconds + settings.agent_signature_max_skew)
      × (server_seconds ≤ agent_seconds + settings.agent_signature_max_skew)

  verified :
      (signer : AgentSigner) (bearer method path : String) (body : List ℕ) (now : ℕ) (uuid : String)
      (token : OpsAgentToken) (server : OpsServer) (s : Session Cache) (cache : Cache)
      → token.signing_public_key ≡ some (public_key_b64 platform crypto signer)
      → signer.server_code ≡ server.server_code
      → InStep (s.clock 0 / 1000000) now
      → platform.set_new
          (record { server_id = server.id; request_id = uuid })
          (settings.agent_signature_max_skew * 2)
          (s.clock 1)
          s.cache
        ≡ some (true, cache)
      → verify_agent_signature platform settings
          (signed_request bearer method path body
            (sign_headers platform crypto signer method path body now uuid))
          token
          server
          s
        ≡ ok (tt, record s { cache = cache; clock = λ n. s.clock (suc (suc n)) })
  unfolding verify_agent_signature verify_headers check_replay after_replay is_replayed read_clock
      sign_headers is_fresh public_key_b64
  verified signer bearer method path body now uuid token server s cache k c i f =
      let sig = signature-verifies signer method path body now uuid in
      let fresh : is_fresh platform settings (s.clock 0 / 1000000) (pos now) ≡ true =
        ground arith in
      rw
        (
          c,
          eq_refl server.server_code,
          laws.parsed now,
          fresh,
          k,
          laws.not_empty signer.private_key,
          sig,
          f,
        )
        refl

  -- A request that the agent signs, with the bearer text of a token that holds the public key of its
  -- signer, is accepted for the server of that token, if the server is enabled and has the code of
  -- the signer, the clocks are in step, and Redis holds no key for its request id yet; the session
  -- keeps all but the two readings of the clock and the key that Redis now holds.
  pub sign_headers-accepted :
      (signer : AgentSigner) (bearer method path : String) (body : List ℕ) (now : ℕ) (uuid : String)
      (token : OpsAgentToken) (server : OpsServer) (s : Session Cache) (cache : Cache)
      → IsBearer bearer token s
      → token.signing_public_key ≡ some (public_key_b64 platform crypto signer)
      → Table.get token.server_id s.servers ≡ some server
      → server.status ≡ 1
      → signer.server_code ≡ server.server_code
      → InStep (s.clock 0 / 1000000) now
      → platform.set_new
          (record { server_id = server.id; request_id = uuid })
          (settings.agent_signature_max_skew * 2)
          (s.clock 1)
          s.cache
        ≡ some (true, cache)
      → resolve_agent platform settings
          (signed_request bearer method path body
            (sign_headers platform crypto signer method path body now uuid))
          s
        ≡ ok ((token, server), record s { cache = cache; clock = λ n. s.clock (suc (suc n)) })
  unfolding resolve_agent
  sign_headers-accepted signer bearer method path body now uuid token server s cache b k g e c i f =
      rw
        (
          authenticate-IsBearer bearer token s b,
          g,
          e,
          verified signer bearer method path body now uuid token server s cache k c i f,
        )
        refl
