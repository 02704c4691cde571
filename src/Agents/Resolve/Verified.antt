-- ===== src/Agents/Resolve/Verified.antt =====
-- The checks on the headers of a request, where signatures are required.
use ops_monitor.Tasks.Retry.{is_given}
use ops_monitor.Common.Int.{ℤ}
use ops_monitor.Common.Action.Post.{
  Post, Post-optional, Post-raise_if, Post-continue, Post-or_raise, Post-if, Post-imp,
}
use ops_monitor.Agents.Signing.{is_replayed, verify_signature, canonical_string}
use ops_monitor.Exceptions.{
  ErrorCode, agent_signature_missing, agent_signature_invalid, app, agent_timestamp_invalid,
}
use ops_monitor.Agents.Resolve.{
  unless_required, after_replay, check_replay, verify_headers, verify_agent_signature, is_fresh,
}
use ops_monitor.Common.{
  ◌≡◌, true, Option, String, Bool, some, ◌*◌, str_eq, not, suc, ◌/◌, or_else, none, false, refl,
  arith,
}
use ops_monitor.Agents.Session.{Settings, Session, read_clock}
use ops_monitor.Agents.Platform.{Platform}
use ops_monitor.Servers.{server_entity, OpsServer}
use ops_monitor.Agents.Model.{token_entity, AgentRequest, OpsAgentToken}
use ops_monitor.Common.Action.{Action, or_raise}
use mathlib.Core.Option

module _ {Cache : Type 0} (platform : Platform Cache) (settings : Settings) where
  -- The checks that a request passes in the session `t`, which leave the session `s'`.
  pub record IsVerified (request : AgentRequest) (token : OpsAgentToken) (server : OpsServer)
      (t s' : Session Cache) : Type 0 where
    pub agent_id : String
    pub timestamp : String
    pub request_id : String
    pub signature : String
    pub at : ℤ
    pub headers :
        (request.agent_id ≡ some agent_id)
        × (request.timestamp ≡ some timestamp)
        × (request.request_id ≡ some request_id)
        × (request.signature ≡ some signature)
    pub of_server : str_eq agent_id server.server_code ≡ true
    pub dated : platform.int_of timestamp ≡ some at
    pub fresh : is_fresh platform settings (t.clock 0 / 1000000) at ≡ true
    pub has_key : is_given token.signing_public_key ≡ true
    pub signed :
        verify_signature platform
          (or_else token.signing_public_key "")
          signature
          (canonical_string platform request.method request.path timestamp request_id request.body)
        ≡ true
    pub first_seen :
        platform.set_new
          (record { server_id = server.id; request_id = request_id })
          (settings.agent_signature_max_skew * 2)
          (t.clock 1)
          t.cache
        ≡ some (true, s'.cache)

  module _ (required : settings.agent_require_signature ≡ true) where
    refuses :
        (Q : Unit {0} → Session Cache → Type 0) (code : ErrorCode) (s : Session Cache)
        → Post Q (unless_required platform settings code s)
    unfolding unless_required
    refuses Q code s = rw required tt

    after_replay_lem :
        (o : Option (Bool × Cache)) (s : Session Cache)
        → Post
            (λ _ s'. o ≡ some (true, s'.cache))
            (after_replay platform settings (Option.map (λ r. (not r.0, r.1)) o) s)
    unfolding after_replay
    after_replay_lem none s =
        refuses (λ _ s'. none ≡ some (true, s'.cache)) agent_signature_invalid s
    after_replay_lem (some (true, c)) s = refl
    after_replay_lem (some (false, c)) s = tt

    check_replay_lem :
        (server : OpsServer) (request_id : String) (s : Session Cache)
        → Post
            (λ _ s'.
              platform.set_new
                (record { server_id = server.id; request_id = request_id })
                (settings.agent_signature_max_skew * 2)
                (s.clock 0)
                s.cache
              ≡ some (true, s'.cache))
            (check_replay platform settings server request_id s)
    unfolding check_replay read_clock is_replayed
    check_replay_lem server request_id s =
        after_replay_lem
          (platform.set_new (record { server_id = server.id; request_id = request_id })
            (settings.agent_signature_max_skew * 2) (s.clock 0) s.cache)
          (record s { clock = λ n. s.clock (suc n) })

    verify_headers_lem :
        (request : AgentRequest) (token : OpsAgentToken) (server : OpsServer)
        (agent_id timestamp request_id signature : String) (s : Session Cache)
        → (request.agent_id ≡ some agent_id)
          × (request.timestamp ≡ some timestamp)
          × (request.request_id ≡ some request_id)
          × (request.signature ≡ some signature)
        → Post
            (λ _ s'. IsVerified request token server s s')
            (verify_headers platform settings request token server agent_id timestamp request_id
              signature s)
    unfolding verify_headers read_clock
    verify_headers_lem request token server agent_id timestamp request_id signature s h =
        Post-raise_if Q (not (str_eq agent_id server.server_code)) (app agent_signature_invalid) _ s
          (λ a.
            Post-continue (λ at t. (t ≡ s) × (platform.int_of timestamp ≡ some at)) Q
              (or_raise (platform.int_of timestamp) (app agent_timestamp_invalid) s) _
              (Post-or_raise (λ at t. (t ≡ s) × (platform.int_of timestamp ≡ some at))
                (platform.int_of timestamp) (app agent_timestamp_invalid) s (λ at q. (refl, q)))
              (λ at t q. rw q.0 (
                Post-raise_if Q (not (is_fresh platform settings (s.clock 0 / 1000000) at))
                  (app agent_timestamp_invalid) _ later
                  (λ f.
                    Post-if Q (not (is_given token.signing_public_key))
                      (unless_required platform settings agent_signature_invalid) _ later
                      (λ _. refuses Q agent_signature_invalid later)
                      (λ k. Post-raise_if Q (not signed) (app agent_signature_invalid) _ later (λ g.
                        Post-imp _ Q (check_replay platform settings server request_id later)
                          (λ _ s' c. record {
                            agent_id = agent_id;
                            timestamp = timestamp;
                            request_id = request_id;
                            signature = signature;
                            at = at;
                            headers = h;
                            of_server = ground arith;
                            dated = q.1;
                            fresh = ground arith;
                            has_key = ground arith;
                            signed = ground arith;
                            first_seen = c;
                          })
                          (check_replay_lem server request_id later)))))))
      where
        Q : Unit {0} → Session Cache → Type 0
        Q _ s' = IsVerified request token server s s'

        later : Session Cache
        later = record s { clock = λ n. s.clock (suc n) }

        signed : Bool
        signed = verify_signature platform (or_else token.signing_public_key "") signature (
            canonical_string platform request.method request.path timestamp request_id request.body)

    pub verify_agent_signature_lem :
        (request : AgentRequest) (token : OpsAgentToken) (server : OpsServer) (s : Session Cache)
        → Post
            (λ _ s'. IsVerified request token server s s')
            (verify_agent_signature platform settings request token server s)
    unfolding verify_agent_signature
    verify_agent_signature_lem request token server s =
        Post-optional Q request.agent_id missing _ s (λ _. refuses Q agent_signature_missing s)
          (λ a qa.
            Post-optional Q request.timestamp missing _ s (λ _. refuses Q agent_signature_missing s)
              (λ t qt.
                Post-optional Q request.request_id missing _ s
                  (λ _. refuses Q agent_signature_missing s)
                  (λ r qr.
                    Post-optional Q request.signature missing _ s
                      (λ _. refuses Q agent_signature_missing s)
                      (λ g qg.
                        verify_headers_lem request token server a t r g s (qa, qt, qr, qg)))))
      where
        Q : Unit {0} → Session Cache → Type 0
        Q _ s' = IsVerified request token server s s'

        missing : Action (Session Cache) (Unit {0})
        missing = unless_required platform settings agent_signature_missing
