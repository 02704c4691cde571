-- ===== src/Agents/Resolve/Replay.antt =====
-- Requests that repeat the request id of one that was accepted.

use ops_monitor.Common.Action.Post.{Post, Post-imp}
use ops_monitor.Agents.Resolve.{resolve_agent}
use ops_monitor.Common.Action.{settle, Result, ok, err}
use ops_monitor.Agents.Model.{AgentRequest, ReplayKey}
use ops_monitor.Common.{
  List, ℕ, ◌*◌, ◌≡◌, true, ◌≤◌, ◌∷◌, ◌<◌, ◌+◌, [], ◌≢◌, some, subst, sym, ◌∙◌, false, arith, refl,
  some_injective,
}
use ops_monitor.Agents.Session.{Settings, Session}
use ops_monitor.Agents.Platform.{Platform, IsRedis}
use ops_monitor.Agents.Resolve.Authentic.{IsAuthentic, resolve_agent-IsAuthentic}
use ops_monitor.Agents.Resolve.Tokens.{clock-IsLater}

module _ {Cache : Type 0} (platform : Platform Cache) (settings : Settings) where
  -- Requests one after another, each with the readings of the clock that it makes; one that is not
  -- accepted leaves the session as it was.
  unfoldable pub resolve_all : List ((ℕ → ℕ) × AgentRequest) → Session Cache → Session Cache
  resolve_all [] s = s
  resolve_all ((clock, request) ∷ rest) s =
      resolve_all rest
        (settle s (resolve_agent platform settings request (record s { clock = clock })))

  -- The time that Redis holds a key, in microseconds.
  abbrev pub replay_window : ℕ
  replay_window = settings.agent_signature_max_skew * 2 * 1000000

  module _ (redis : IsRedis platform) (required : settings.agent_require_signature ≡ true) where
    resolve_agent-kept :
        (k : ReplayKey) (until : ℕ) (request : AgentRequest) (s : Session Cache)
        → redis.Holds s.cache k until
        → Post (λ _ s'. redis.Holds s'.cache k until) (resolve_agent platform settings request s)
    resolve_agent-kept k until request s h =
        Post-imp (λ r s'. IsAuthentic platform settings request s r.0 r.1 s')
          (λ _ s'. redis.Holds s'.cache k until) (resolve_agent platform settings request s)
          (λ r s' a.
            redis.kept k _ until _ (a.check.clock 1) a.check.cache s'.cache true
              (subst (λ c. redis.Holds c k until) (sym a.later.0) h) a.verified.first_seen)
          (resolve_agent-IsAuthentic platform settings request s required)

    settle-kept :
        {A : Type 0} (k : ReplayKey) (until : ℕ) (s : Session Cache)
        (r : Result (A × Session Cache))
        → redis.Holds s.cache k until
        → Post (λ _ s'. redis.Holds s'.cache k until) r
        → redis.Holds (settle s r).cache k until
    settle-kept k until s (ok (a, s')) h p = p
    settle-kept k until s (err e) h p = h

    resolve_all-kept :
        (k : ReplayKey) (until : ℕ) (requests : List ((ℕ → ℕ) × AgentRequest)) (s : Session Cache)
        → redis.Holds s.cache k until
        → redis.Holds (resolve_all requests s).cache k until
    unfolding resolve_all
    resolve_all-kept k until [] s h = h
    resolve_all-kept k until ((clock, request) ∷ rest) s h = resolve_all-kept k until rest _ (
        settle-kept k until s (resolve_agent platform settings request (record s { clock = clock }))
          h (resolve_agent-kept k until request (record s { clock = clock }) h))

    -- A key that is held is refused.
    resolve_agent-refused :
        (k : ReplayKey) (until : ℕ) (request : AgentRequest) (s : Session Cache)
        → request.request_id ≡ some k.request_id
        → redis.Holds s.cache k until
        → ((n : ℕ) → s.clock n < until)
        → Post (λ r _. r.1.id ≢ k.server_id) (resolve_agent platform settings request s)
    resolve_agent-refused k until request s i h before =
        Post-imp (λ r s'. IsAuthentic platform settings request s r.0 r.1 s')
          (λ r _. r.1.id ≢ k.server_id) (resolve_agent platform settings request s)
          (λ r s' a q.
            let id : a.verified.request_id ≡ k.request_id =
              some_injective (sym a.verified.headers.2 ∙ i) in
            let key : record { server_id = r.1.id; request_id = a.verified.request_id } ≡ k =
              rw (q, id) refl in
            let seen =
              subst
                (λ j.
                  platform.set_new j (settings.agent_signature_max_skew * 2) (a.check.clock 1)
                    a.check.cache
                  ≡ some (true, s'.cache))
                key a.verified.first_seen in
            let f : true ≡ false =
              redis.refused k until (settings.agent_signature_max_skew * 2) (a.check.clock 1)
                a.check.cache s'.cache true (subst (λ c. redis.Holds c k until) (sym a.later.0) h)
                (clock-IsLater platform settings (λ n. n < until) s a.check a.later before 1)
                seen in
            cc)
          (resolve_agent-IsAuthentic platform settings request s required)

  -- Where signatures are required and Redis holds what it creates: once a request with a request id
  -- is accepted for a server, at times not before `start`, no request with that id is accepted for
  -- that server at any times before `start` plus twice the skew, whatever requests are handled in
  -- between.
  pub replay_rejected :
      IsRedis platform
      → settings.agent_require_signature ≡ true
      → (first again : AgentRequest) (between : List ((ℕ → ℕ) × AgentRequest)) (s : Session Cache)
        (clock : ℕ → ℕ) (start : ℕ)
      → again.request_id ≡ first.request_id
      → ((n : ℕ) → start ≤ s.clock n)
      → ((n : ℕ) → clock n < start + replay_window)
      → Post
          (λ r s'.
            Post
              (λ r' _. r'.1.id ≢ r.1.id)
              (resolve_agent platform settings again
                (record (resolve_all between s') { clock = clock })))
          (resolve_agent platform settings first s)
  replay_rejected redis required first again between s clock start i after before =
      Post-imp (λ r s'. IsAuthentic platform settings first s r.0 r.1 s') _
        (resolve_agent platform settings first s)
        (λ r s' a.
          let k : ReplayKey = record { server_id = r.1.id; request_id = a.verified.request_id } in
          let until : ℕ = a.check.clock 1 + replay_window in
          let held : redis.Holds s'.cache k until =
            redis.created k (settings.agent_signature_max_skew * 2) (a.check.clock 1) a.check.cache
              s'.cache a.verified.first_seen in
          let started : start ≤ a.check.clock 1 =
            clock-IsLater platform settings (λ n. start ≤ n) s a.check a.later after 1 in
          resolve_agent-refused redis required k until again
            (record (resolve_all between s') { clock = clock }) (i ∙ a.verified.headers.2)
            (resolve_all-kept redis required k until between s' held)
            (λ n. let b = before n in omega (arith, b, started)))
        (resolve_agent-IsAuthentic platform settings first s required)
