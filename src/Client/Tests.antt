-- ===== src/Client/Tests.antt =====
-- A base64, a network and a shell that have what is relied on, and the theorems at concrete
-- requests and tasks.
use ops_monitor.Servers.Examples.{web}
use ops_monitor.Common.Text.{codes}
use ops_monitor.Common.Action.{ok}
use ops_monitor.Client.Worker.Reports.{execute_all-posted, report_of-is_retryable}
use ops_monitor.Tasks.Retry.{is_retryable}
use ops_monitor.Client.Signer.Accepted.{IsBearer, signed_request, sign_headers-accepted}
use ops_monitor.Common.Table
use ops_monitor.Client.Executor.Controlled.{Runs, executor-Runs}
use ops_monitor.Tasks.Service.Dispatch.{PendingTask}
use ops_monitor.Client.Worker.{TaskReport, report_of, execute_all}
use ops_monitor.Client.Executor.{Shell, completed, run_action, returned, fetch_logs}
use ops_monitor.Client.Reporter.Retries.{Ends, send_loop-Ends}
use ops_monitor.Client.Reporter.{Outside, Config, HttpRequest}
use ops_monitor.Protocol.Requests.{RegisterRequest}
use ops_monitor.Agents.Resolve.{hash_token, resolve_agent}
use ops_monitor.Common.Int.{ℤ, pos}
use ops_monitor.Agents.Examples.{Keys, web_token, simple, at_start, strict}
use ops_monitor.Client.Signer.{AgentSigner, sign_headers, public_key_b64}
use ops_monitor.Client.Platform.{Crypto, IsEd25519}
use ops_monitor.Agents.Platform.{Platform}
use ops_monitor.Common.{
  ℕ, List, String, ◌∷◌, [], ◌≡◌, Option, ap, suc, if◌then◌else◌, ◌∙◌, some, none, zero, refl, ◌==◌,
  str_eq, map, false, ◌+◌, true, Bool, Bool-cases, ◌++◌, ◌⊎◌, ◌≤◌, inr, inl, eq_iff, arith,
}
use Prim.Native.Char.{code}
use ops_monitor.Protocol.Session.{Session as ServiceSession}
use ops_monitor.Agents.Session.{Session as AgentSession}
use ops_monitor.Agents.Model.{token_entity, OpsAgentToken}
use ops_monitor.Servers.{server_entity}

-- Numbers in unary, each ended by a `b`.
abbrev unary : ℕ → String → String
unary zero s = String.◌∷◌ "b" s
unary (suc n) s = String.◌∷◌ "a" (unary n s)

abbrev written : List ℕ → String
written [] = String.[]
written (n ∷ ns) = unary n (written ns)

abbrev bump : List ℕ → List ℕ
bump [] = []
bump (n ∷ ns) = suc n ∷ ns

abbrev read : String → List ℕ
read String.[] = []
read (String.◌∷◌ c s) = let rest = read s in if code c == b'b' then 0 ∷ rest else bump rest

read-unary : (n : ℕ) (s : String) → read (unary n s) ≡ n ∷ read s
read-unary zero s = refl
read-unary (suc n) s = rw (read-unary n s) refl

read-written : (ns : List ℕ) → read (written ns) ≡ ns
read-written [] = refl
read-written (n ∷ ns) = read-unary n (written ns) ∙ ap (λ r. n ∷ r) (read-written ns)

not_empty_text : (s : String) → str_eq (unary 0 s) "" ≡ false
not_empty_text s = elim (Bool-cases (str_eq (unary 0 s) "")) [
  | inr f ↦ f
  | inl t ↦ let q : codes (unary 0 s) ≡ codes "" = ap codes ((eq_iff (unary 0 s) "").0 t) in cc
]

abbrev first : List ℕ → Option ℤ
first [] = none
first (n ∷ _) = some (pos n)

abbrev unary_platform : Platform Keys
unary_platform = record simple {
  int_of = λ text. first (read text);
  b64decode = λ text. some (read text);
  b64decode_strict = λ text. some (read text);
}

abbrev unary_crypto : Crypto
unary_crypto = record {
  sign = λ key message. message;
  public_bytes = λ key. 0 ∷ key;
  b64encode = written;
  str_of = λ n. written (n ∷ []);
}

unary-IsEd25519 : IsEd25519 unary_platform unary_crypto
unary-IsEd25519 = record {
  decoded = λ bytes. ap some (read-written bytes);
  decoded_strict = λ bytes. ap some (read-written bytes);
  public_key = λ key. refl;
  not_empty = λ key. not_empty_text (written key);
  verifies = λ key message. refl;
  parsed = λ n. ap first (read-written (n ∷ []));
}

abbrev web_signer : AgentSigner
web_signer = record { private_key = 1 ∷ []; server_code = "web" }

-- The token of the server, with the key of the signer.
abbrev signer_token : OpsAgentToken
signer_token = record web_token { signing_public_key = some "bab" }

abbrev with_key : AgentSession Keys
with_key = record at_start {
  tokens = record { rows = signer_token ∷ []; next_id = 2 };
  clock = λ n. 5000000;
}

web-IsBearer :
    IsBearer unary_platform strict unary_crypto unary-IsEd25519 "abcdefgh" signer_token with_key
unfolding hash_token Table.get_by
web-IsBearer = record { found = refl; enabled = refl; unlimited = refl; not_revoked = refl }

sign_headers-accepted_example :
    resolve_agent unary_platform strict
      (signed_request "abcdefgh" "GET" "/api/v1/agent/tasks/pending" [] (
        sign_headers unary_platform unary_crypto web_signer "GET" "/api/v1/agent/tasks/pending" [] 5
          "r1"))
      with_key
    ≡ ok (
      (signer_token, web),
      record with_key {
        cache = (record { server_id = 1; request_id = "r1" }, 605000000) ∷ [];
        clock = λ n. 5000000;
      },
    )
unfolding public_key_b64 Table.get
sign_headers-accepted_example =
    sign_headers-accepted unary_platform strict unary_crypto unary-IsEd25519 web_signer "abcdefgh"
      "GET" "/api/v1/agent/tasks/pending" [] 5 "r1" signer_token web with_key
      ((record { server_id = 1; request_id = "r1" }, 605000000) ∷ []) web-IsBearer refl refl refl
      refl (omega arith, omega arith) refl

abbrev web_registration : RegisterRequest
web_registration = record {
  server_code = "web";
  token = "abcdefgh";
  hostname = "web-1";
  os_name = some "Linux";
  os_version = none;
  kernel_version = none;
  architecture = none;
  cpu_model = none;
  cpu_cores = some 4;
  memory_total_bytes = none;
  disk_total_bytes = none;
  agent_version = some "1.0";
  signing_public_key = some "bab";
}

-- A network that is down, with the number of sends and the time slept.
abbrev down : Outside (ℕ × ℕ) (Unit {0})
down = record {
  send = λ r w. (none, (w.0 + 1, w.1));
  sleep = λ n w. (w.0, w.1 + n);
  random = λ w. (0, w);
  time = λ w. (0, w);
  uuid = λ w. ("r1", w);
  dumps = λ j. [];
}

abbrev defaults : Config
defaults = record { retry_max_seconds = 60; retry_max_count = 2; retry_jitter = true }

abbrev ping : HttpRequest (Unit {0})
ping = record { method = "GET"; path = "/"; json = none; content = []; headers = none }

send_loop-Ends_example :
    Ends down defaults
      (λ w. w.0)
      (λ w. w.1)
      (record {
        send_counts = λ r w. (refl, refl);
        sleep_adds = λ n w. (refl, refl);
        random_free = λ w. (refl, refl);
      })
      3
      ping
      1
      0
      (0, 0)
send_loop-Ends_example =
    send_loop-Ends down defaults (λ w. w.0) (λ w. w.1)
      (record {
        send_counts = λ r w. (refl, refl);
        sleep_adds = λ n w. (refl, refl);
        random_free = λ w. (refl, refl);
      })
      ping (0, 0)

-- A host where every command fails, and a server that takes every report.
abbrev broken : Shell (List TaskReport)
broken = record {
  run = λ command timeout w. (completed (pos 1) "" "unit not found", w);
  strip = λ text. text;
  str_of = λ n. "n";
}

abbrev post : TaskReport → List TaskReport → Bool × List TaskReport
post r w = (true, w ++ r ∷ [])

abbrev restart_nginx : PendingTask
restart_nginx = record {
  execution_id = 7;
  task_id = 3;
  action = "RESTART";
  service_name = some "nginx";
  timeout_seconds = 60;
}

executor-Runs_example :
    Runs broken
      ("nginx" ∷ [])
      []
      (run_action broken ("nginx" ∷ []) (some "nginx") (some "RESTART") 60 []).1
    × Runs broken ("nginx" ∷ []) [] (fetch_logs broken ("nginx" ∷ []) (some "nginx") []).1
executor-Runs_example = executor-Runs broken ("nginx" ∷ []) (some "nginx") (some "RESTART") 60 []

report_of-is_retryable_example :
    ((report_of restart_nginx (returned false "unit not found")).status ≡ "SUCCESS")
    ⊎ (((report_of restart_nginx (returned false "unit not found")).status ≡ "FAILED")
        × (is_retryable (report_of restart_nginx (returned false "unit not found")).error_type none
            ≡ false))
report_of-is_retryable_example =
    report_of-is_retryable restart_nginx (returned false "unit not found") none

execute_all-posted_example :
    (map
        (λ r. r.execution_id)
        (execute_all broken ("nginx" ∷ []) post (restart_nginx ∷ restart_nginx ∷ []) []).1
      ≡ 7 ∷ 7 ∷ [])
    × ((execute_all broken ("nginx" ∷ []) post (restart_nginx ∷ restart_nginx ∷ []) []).0 ≤ 2)
execute_all-posted_example =
    execute_all-posted broken ("nginx" ∷ []) post (λ w. w)
      (record { report_posts = λ r w. refl; run_keeps = λ c t w. refl })
      (restart_nginx ∷ restart_nginx ∷ []) []
