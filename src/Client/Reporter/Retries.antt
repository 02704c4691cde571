-- ===== src/Client/Reporter/Retries.antt =====
-- The loop of `AgentClient._request` ends.
use ops_monitor.Common.{
  ℕ, ◌*◌, ◌≡◌, ◌+◌, ◌≤◌, some, Bool-cases, ◌<◌, arith, inl, suc, zero, inr, Option-cases, ltb, leb,
  subst, sym, ◌∙◌, refl,
}
use ops_monitor.Client.Reporter.{
  Outside, Config, HttpRequest, wait, send_loop, sleep_for, Reply, reply_to, raised,
  too_many_retries, gave_up, after_send, after_failure,
}
use Prim.Native.Nat.{min}

-- A count of the sends and a sum of the sleeps, as the world keeps them.
pub record IsLedger {World Json : Type 0} (outside : Outside World Json) (sends slept : World → ℕ)
    : Type 0 where
  pub send_counts :
      (r : HttpRequest Json) (w : World)
      → (sends (outside.send r w).1 ≡ sends w + 1) × (slept (outside.send r w).1 ≡ slept w)
  pub sleep_adds :
      (n : ℕ) (w : World)
      → (sends (outside.sleep n w) ≡ sends w) × (slept (outside.sleep n w) ≡ slept w + n)
  pub random_free :
      (w : World) → (sends (outside.random w).1 ≡ sends w) × (slept (outside.random w).1 ≡ slept w)

module _ {World Json : Type 0} (outside : Outside World Json) (config : Config)
    (sends slept : World → ℕ) (ledger : IsLedger outside sends slept) where
  abbrev pub longest : ℕ
  longest = config.retry_max_seconds * 1000000

  wait-bound :
      (delay : ℕ) (w : World)
      → (sends (wait outside config delay w) ≡ sends w)
        × (slept (wait outside config delay w) ≤ slept w + longest)
  unfolding wait sleep_for
  wait-bound delay w = elim (Bool-cases config.retry_jitter) [
    | inl t ↦
        let r = outside.random w in
        let n : ℕ = min (delay * (500000 + r.0)) longest in
        let b : n ≤ longest = omega arith in
        let a = ledger.sleep_adds n r.1 in
        let f = ledger.random_free w in
        let d : sleep_for outside config delay w ≡ (n, r.1) = rw t refl in
        subst Fits (sym d) (a.0 ∙ f.0, omega (arith, a, f, b))
    | inr f ↦
        let n : ℕ = min (delay * 1000000) longest in
        let b : n ≤ longest = omega arith in
        let a = ledger.sleep_adds n w in
        let d : sleep_for outside config delay w ≡ (n, w) = rw f refl in
        subst Fits (sym d) (a.0, omega (arith, a, b))
  ]
    where
      Fits : ℕ × World → Type 0
      Fits d =
          (sends (outside.sleep d.0 d.1) ≡ sends w)
          × (slept (outside.sleep d.0 d.1) ≤ slept w + longest)

  -- The loop returns, after a bounded number of sends and a bounded time of sleeping.
  pub record Ends (fuel : ℕ) (request : HttpRequest Json) (delay attempt : ℕ) (w : World)
      : Type 0 where
    pub reply : Reply Json
    pub world : World
    pub runs : send_loop outside config fuel request delay attempt w ≡ some (reply, world)
    pub sent :
        (sends w < sends world) × (sends world + attempt ≤ sends w + config.retry_max_count + 1)
    pub waited : slept world + attempt * longest ≤ slept w + config.retry_max_count * longest

  mul_mono : (a b l : ℕ) → a ≤ b → a * l ≤ b * l
  mul_mono a b l h = grind arith

  mul_suc : (a l : ℕ) → (a + 1) * l ≡ a * l + l
  mul_suc a l = grind arith

  rounds-Ends :
      (fuel : ℕ) (request : HttpRequest Json) (delay attempt : ℕ) (w : World)
      → fuel + attempt ≡ config.retry_max_count + 1
      → attempt ≤ config.retry_max_count
      → Ends fuel request delay attempt w
  unfolding send_loop after_send after_failure
  rounds-Ends zero request delay attempt w e b = absurd (omega arith)
  rounds-Ends (suc fuel) request delay attempt w e b =
      let sent = outside.send request w in
      let c = ledger.send_counts request w in
      elim (Option-cases sent.0) [
        | inr r ↦ record {
          reply = reply_to outside config r.0;
          world = sent.1;
          runs = rw (r.1) refl;
          sent = (omega (arith, c), omega (arith, c));
          waited = omega (arith, c, mul_mono attempt config.retry_max_count longest b);
        }
        | inl n ↦ elim (Bool-cases (ltb config.retry_max_count (attempt + 1))) [
          | inl t ↦ record {
            reply = raised too_many_retries;
            world = sent.1;
            runs = rw (n, t) refl;
            sent = (omega (arith, c), omega (arith, c));
            waited = omega (arith, c, mul_mono attempt config.retry_max_count longest b);
          }
          | inr f ↦ elim (Bool-cases (leb config.retry_max_seconds delay)) [
            | inl t ↦ record {
              reply = raised gave_up;
              world = sent.1;
              runs = rw (n, f, t) refl;
              sent = (omega (arith, c), omega (arith, c));
              waited = omega (arith, c, mul_mono attempt config.retry_max_count longest b);
            }
            | inr g ↦
                let waited' = wait-bound delay sent.1 in
                let i =
                  rounds-Ends fuel request (min (delay * 2) config.retry_max_seconds) (attempt + 1)
                    (wait outside config delay sent.1) (omega arith) (ground arith) in
                record {
                  reply = i.reply;
                  world = i.world;
                  runs = rw (n, f, g) i.runs;
                  sent = (omega (arith, c, waited', i.sent), omega (arith, c, waited', i.sent));
                  waited =
                      let m = mul_suc attempt longest in omega (arith, waited', c, m, i.waited);
                }
          ]
        ]
      ]

  -- A call of the client always ends, whatever the network does: with one more round than the
  -- retries that are allowed, the loop never runs out; it sends the request at least once and at most
  -- that often, and sleeps for at most the longest delay between two sends.
  pub send_loop-Ends :
      (request : HttpRequest Json) (w : World) → Ends (config.retry_max_count + 1) request 1 0 w
  send_loop-Ends request w =
      rounds-Ends (config.retry_max_count + 1) request 1 0 w (omega arith) (omega arith)
