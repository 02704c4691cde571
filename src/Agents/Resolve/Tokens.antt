-- ===== src/Agents/Resolve/Tokens.antt =====
-- The lookup of a token, and what it leaves of the session.
use ops_monitor.Common.Table.{has_id}
use ops_monitor.Common.Table.Laws.{Has-find}
use ops_monitor.Common.Action.Post.{Post, Post-if, Post-optional, Post-continue}
use ops_monitor.Agents.Resolve.{is_live, authenticate, hash_token}
use ops_monitor.Common.{
  ℕ, ◌≡◌, inl, ◌⊎◌, subst, str_eq, true, Bool, some, suc, sym, none, if◌then◌else◌, Option, inr,
  not, arith, false, ◌==◌, refl, is_some, is_some-none,
}
use ops_monitor.Agents.Session.{Settings, Session, read_clock}
use ops_monitor.Agents.Platform.{Platform}
use ops_monitor.Common.Table
use ops_monitor.Common.{◌≤◌, ◌∙◌, some_injective}
use ops_monitor.Servers.{server_entity}
use ops_monitor.Agents.Model.{token_entity, AgentRequest, OpsAgentToken}
use ops_monitor.Common.Action.{pure}

module _ {Cache : Type 0} (platform : Platform Cache) (settings : Settings) where
  -- A session in which at most the clock was read, once.
  abbrev pub IsLater : Session Cache → Session Cache → Type 0
  IsLater s t = (t.cache ≡ s.cache) × ((t.clock ≡ s.clock) ⊎ (t.clock ≡ (λ n. s.clock (suc n))))

  pub clock-IsLater :
      (P : ℕ → Type 0) (s t : Session Cache)
      → IsLater s t
      → ((n : ℕ) → P (s.clock n))
      → (n : ℕ) → P (t.clock n)
  clock-IsLater P s t (c, inl q) h n = subst (λ f. P (f n)) (sym q) (h n)
  clock-IsLater P s t (c, inr q) h n = subst (λ f. P (f n)) (sym q) (h (suc n))

  -- The row of a token that is valid in a session: at the next reading of its clock, if it expires.
  pub record IsLive (request : AgentRequest) (s : Session Cache) (token : OpsAgentToken)
      : Type 0 where
    pub of_text : str_eq token.token_hash (hash_token platform settings request.token) ≡ true
    pub active : token.status ≡ 1
    pub not_revoked : token.revoked_at ≡ none
    pub not_expired : (at : ℕ) → token.expires_at ≡ some at → s.clock 0 ≤ at

  -- What the answer of `is_live` says of a token.
  abbrev Answer : OpsAgentToken → Session Cache → Bool → Type 0
  Answer token s b =
      b ≡ true
      → (token.status ≡ 1)
        × (token.revoked_at ≡ none)
        × ((at : ℕ) → token.expires_at ≡ some at → s.clock 0 ≤ at)

  is_live_lem :
      (token : OpsAgentToken) (s : Session Cache)
      → Post (λ b t. IsLater s t × Answer token s b) (is_live platform settings token s)
  unfolding is_live read_clock
  is_live_lem token s =
      Post-if Q (not (token.status == 1)) (pure false) _ s (λ _. ((refl, inl refl), λ q. cc))
        (λ k.
          let active : token.status ≡ 1 = ground arith in
          Post-optional Q token.expires_at (pure (not (is_some token.revoked_at))) _ s
            (λ n. (
              (refl, inl refl),
              λ q. (active, is_some-none token.revoked_at (ground arith), λ at e. cc),
            ))
            (λ at e. (
              (refl, inr refl),
              λ q.
                  let m : s.clock 0 ≤ at = ground arith in
                  (
                    active,
                    is_some-none token.revoked_at (ground arith),
                    λ at' e'.
                        let i : at ≡ at' = some_injective (sym e ∙ e') in
                        subst (λ x. s.clock 0 ≤ x) i m,
                  ),
            )))
    where
      Q : Bool → Session Cache → Type 0
      Q b t = IsLater s t × Answer token s b

  text_of :
      (request : AgentRequest) (token : OpsAgentToken) (s : Session Cache)
      → Table.get_by
          (λ t. str_eq t.token_hash (hash_token platform settings request.token))
          s.tokens
        ≡ some token
      → str_eq token.token_hash (hash_token platform settings request.token) ≡ true
  unfolding Table.get_by
  text_of request token s q =
      let h =
        Has-find
          (Table.visible (λ t. str_eq t.token_hash (hash_token platform settings request.token)))
          s.tokens.rows q in
      ground (arith, h.1)

  IsLive-of :
      (request : AgentRequest) (s : Session Cache) (token found : OpsAgentToken) (b : Bool)
      → str_eq token.token_hash (hash_token platform settings request.token) ≡ true
      → Answer token s b
      → (if b then some token else none) ≡ some found
      → IsLive request s found
  IsLive-of request s token found false t h q = cc
  IsLive-of request s token found true t h q =
      let e : token ≡ found = cc in
      subst (IsLive request s) e (record {
        of_text = t;
        active = (h refl).0;
        not_revoked = (h refl).1;
        not_expired = (h refl).2;
      })

  pub authenticate_lem :
      (request : AgentRequest) (s : Session Cache)
      → Post
          (λ o t. IsLater s t × ((token : OpsAgentToken) → o ≡ some token → IsLive request s token))
          (authenticate platform settings request.token s)
  unfolding authenticate
  authenticate_lem request s =
      Post-optional Q (Table.get_by test s.tokens) (pure none) _ s
        (λ _. ((refl, inl refl), λ _ q. cc))
        (λ token f.
          Post-continue (λ b t. IsLater s t × Answer token s b) Q
            (is_live platform settings token s) (λ live. pure (if live then some token else none))
            (is_live_lem token s)
            (λ b t h. (
              h.0,
              λ found q. IsLive-of request s token found b (text_of request token s f) h.1 q,
            )))
    where
      test : OpsAgentToken → Bool
      test t = str_eq t.token_hash (hash_token platform settings request.token)

      Q : Option OpsAgentToken → Session Cache → Type 0
      Q o t = IsLater s t × ((token : OpsAgentToken) → o ≡ some token → IsLive request s token)
