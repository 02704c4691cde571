-- ===== src/Client/Reporter.antt =====
-- agent/reporter/client.py: `AgentClient`. A time is a number of millionths of a second.
pub mod Retries
use Prim.Native.Nat.{min}
use ops_monitor.Client.Signer.{SignedHeaders, sign_headers, AgentSigner}
use ops_monitor.Client.Platform.{Crypto}
use ops_monitor.Agents.Platform.{Platform}
use ops_monitor.Common.{
  ℕ, String, Option, if◌then◌else◌, Bool, List, leb, none, or_else, suc, [], some, ltb, ◌+◌, true,
  ◌*◌, zero, false,
}
use ops_monitor.Common.Table

-- The settings of the client.
pub record Config : Type 0 where
  pub retry_max_seconds : ℕ
  pub retry_max_count : ℕ
  pub retry_jitter : Bool

-- A request as it is sent: with signed headers and the bytes of its body, or with a body that httpx
-- writes.
pub record HttpRequest (Json : Type 0) : Type 0 where
  pub method : String
  pub path : String
  pub json : Option Json
  pub content : List ℕ
  pub headers : Option SignedHeaders

-- A response with its JSON, of which `data` and `message` may be missing.
pub record HttpResponse (Json : Type 0) : Type 0 where
  pub status_code : ℕ
  pub payload : Json
  pub payload_data : Option Json

-- `ReporterError`, by the line that raises it.
pub data ReporterError (Json : Type 0) : Type 0 where
  too_many_retries : ReporterError Json
  gave_up : ReporterError Json
  rejected : (status_code : ℕ) → (payload : Json) → ReporterError Json

pub data Reply (Json : Type 0) : Type 0 where
  answered : Json → Reply Json
  raised : ReporterError Json → Reply Json

-- What the client takes from outside: httpx, where none is an HTTPError or a ValueError, `time.sleep`,
-- `random.random` in millionths, the clock in whole seconds, UUIDs, and `json.dumps` in UTF-8.
pub record Outside (World Json : Type 0) : Type 0 where
  pub send : HttpRequest Json → World → Option (HttpResponse Json) × World
  pub sleep : ℕ → World → World
  pub random : World → ℕ × World
  pub time : World → ℕ × World
  pub uuid : World → String × World
  pub dumps : Json → List ℕ

module _ {World Json : Type 0} (outside : Outside World Json) (config : Config) where
  -- `min(delay * (0.5 + random()), retry_max_seconds)`, or without jitter `min(delay, …)`
  unfoldable pub sleep_for : (delay : ℕ) → World → ℕ × World
  sleep_for delay w =
      if config.retry_jitter
      then (let r = outside.random w in
          (min (delay * (500000 + r.0)) (config.retry_max_seconds * 1000000), r.1))
      else (min (delay * 1000000) (config.retry_max_seconds * 1000000), w)

  unfoldable pub wait : (delay : ℕ) → World → World
  unfolding sleep_for
  wait delay w = let d = sleep_for delay w in outside.sleep d.0 d.1

  -- What follows a response.
  unfoldable pub reply_to : HttpResponse Json → Reply Json
  reply_to response =
      if leb 400 response.status_code
      then raised (rejected response.status_code response.payload)
      else answered (or_else response.payload_data response.payload)

  -- The `except` clause, where `again` is the next round.
  unfoldable pub after_failure :
      (delay attempt : ℕ)
      → World
      → (again : World → Option (Reply Json × World)) → Option (Reply Json × World)
  unfolding wait
  after_failure delay attempt w again =
      if ltb config.retry_max_count (attempt + 1)
      then some (raised too_many_retries, w)
      else if leb config.retry_max_seconds delay
      then some (raised gave_up, w)
      else again (wait delay w)

  unfoldable pub after_send :
      Option (HttpResponse Json)
      → (delay attempt : ℕ) → World
      → (again : World → Option (Reply Json × World)) → Option (Reply Json × World)
  unfolding after_failure reply_to
  after_send none delay attempt w again = after_failure delay attempt w again
  after_send (some response) delay attempt w again = some (reply_to response, w)

  -- `while True`, on fuel: none is that the fuel is spent. The delay is in seconds.
  unfoldable pub send_loop :
      (fuel : ℕ) → HttpRequest Json → (delay attempt : ℕ) → World → Option (Reply Json × World)
  unfolding after_send
  send_loop zero request delay attempt w = none
  send_loop (suc fuel) request delay attempt w =
      let sent = outside.send request w in
      after_send sent.0 delay attempt sent.1
        (λ w'. send_loop fuel request (min (delay * 2) config.retry_max_seconds) (attempt + 1) w')

module _ {World Json Cache : Type 0} (outside : Outside World Json) (config : Config)
    (platform : Platform Cache) (crypto : Crypto) where
  -- The request that `_request` sends, each time it sends it.
  unfoldable pub prepare :
      Option AgentSigner → (method path : String) → Option Json → World → HttpRequest Json × World
  unfolding sign_headers
  prepare none method path json w =
      (record { method = method; path = path; json = json; content = []; headers = none }, w)
  prepare (some signer) method path json w =
      let body : List ℕ = elim json [ none ↦ [] | some j ↦ outside.dumps j ] in
      let now = outside.time w in
      let id = outside.uuid now.1 in
      (
        record {
          method = method;
          path = path;
          json = json;
          content = body;
          headers = some (sign_headers platform crypto signer method path body now.0 id.0);
        },
        id.1,
      )

  unfoldable pub send_request :
      (fuel : ℕ)
      → Option AgentSigner
      → (method path : String) → Option Json
      → World
      → Option (Reply Json × World)
  unfolding prepare send_loop
  send_request fuel signer method path json w =
      let p = prepare signer method path json w in send_loop outside config fuel p.0 1 0 p.1
