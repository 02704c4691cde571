-- ===== src/Tasks/Retry.antt =====
-- backend/app/core/retry.py
pub mod Policy
use Prim.Native.Nat.{min}
use ops_monitor.Common.{
  ℕ, ◌-◌, String, Bool, true, false, ◌&&◌, ◌||◌, not, List, [], ◌∷◌, Option, none, some, str_eq,
  any, get_or, length, if◌then◌else◌,
}
use ops_monitor.Common.Text.{codes, lower, contains}

abbrev pub retryable_error_types : List String
retryable_error_types = "NETWORK_ERROR" ∷ "AGENT_OFFLINE" ∷ "AGENT_TIMEOUT" ∷ "SERVER_5XX" ∷ []

abbrev pub non_retryable_error_types : List String
non_retryable_error_types =
    "INVALID_ARGUMENT" ∷ "PERMISSION_DENIED" ∷ "COMMAND_NOT_FOUND" ∷ "SERVICE_NOT_WHITELISTED"
    ∷ "TASK_ACTION_INVALID" ∷ []

abbrev pub conditional_error_types : List String
conditional_error_types =
    "AGENT_EXECUTION_TIMEOUT" ∷ "SERVICE_UNHEALTHY" ∷ "DEPENDENCY_UNAVAILABLE"
    ∷ "RESOURCE_EXHAUSTED" ∷ []

abbrev pub unknown_error_type : String
unknown_error_type = "UNKNOWN"

-- `x in {…}`
abbrev pub is_one_of : List String → String → Bool
is_one_of types t = any (str_eq t) types

-- The truth of an optional text: `None` and `""` are false.
abbrev pub is_given : Option String → Bool
is_given none = false
is_given (some s) = not (str_eq s "")

-- `text or default`
abbrev pub text_or : Option String → String → String
text_or none d = d
text_or (some s) d = if str_eq s "" then d else s

-- The words that a message is searched for, when there is no type.
unfoldable pub infer_error_type : String → String
infer_error_type message =
    let text = lower (codes message) in
    let has = λ (token : String). contains (codes token) text in
    if has "timeout" || has "超时"
    then "AGENT_TIMEOUT"
    else if has "network" || has "connection" || has "refused" || has "unreachable" || has "网络"
    then "NETWORK_ERROR"
    else if has "offline" || has "离线"
    then "AGENT_OFFLINE"
    else unknown_error_type

unfoldable pub classify_error : Option String → Option String → String
classify_error error_type error_message =
    text_or error_type (infer_error_type (text_or error_message ""))

unfoldable pub is_retryable : Option String → Option String → Bool
is_retryable error_type error_message =
    is_one_of retryable_error_types (classify_error error_type error_message)

abbrev pub backoff_table : List ℕ
backoff_table = 5 ∷ 10 ∷ 30 ∷ 60 ∷ []

-- `BACKOFF_SECONDS[max(0, min(attempt - 1, len(BACKOFF_SECONDS) - 1))]`; for attempt 0 the index -1
-- is raised to 0, where `-` on ℕ stops too. The index is in range, so no default is returned.
unfoldable pub backoff_seconds : ℕ → ℕ
backoff_seconds attempt = get_or backoff_table (min (attempt - 1) (length backoff_table - 1)) 0
