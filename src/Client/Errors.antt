-- ===== src/Client/Errors.antt =====
-- agent/errors.py
use ops_monitor.Tasks.Retry.{text_or}
use ops_monitor.Common.Text.{lower, codes, contains}
use ops_monitor.Common.{String, Option, if◌then◌else◌, ◌||◌}

abbrev pub command_not_found : String
command_not_found = "COMMAND_NOT_FOUND"

abbrev pub permission_denied : String
permission_denied = "PERMISSION_DENIED"

abbrev pub agent_execution_timeout : String
agent_execution_timeout = "AGENT_EXECUTION_TIMEOUT"

abbrev pub service_not_whitelisted : String
service_not_whitelisted = "SERVICE_NOT_WHITELISTED"

abbrev pub task_action_invalid : String
task_action_invalid = "TASK_ACTION_INVALID"

abbrev pub service_unhealthy : String
service_unhealthy = "SERVICE_UNHEALTHY"

abbrev pub unknown : String
unknown = "UNKNOWN"

unfoldable pub classify_failure : Option String → String
classify_failure output =
    let text = lower (codes (text_or output "")) in
    let has = λ (words : String). contains (codes words) text in
    if has "超时" || has "timeout"
    then agent_execution_timeout
    else if has "not found" || has "not-found" || has "no such file" || has "unknown service"
    then command_not_found
    else if has "permission" || has "access denied" || has "authentication"
    then permission_denied
    else if has "failed" || has "inactive" || has "dead"
    then service_unhealthy
    else unknown

unfoldable pub classify_validation_error : String → String
classify_validation_error message =
    if contains (codes "白名单") (codes message)
      || contains (codes "whitelist") (lower (codes message))
    then service_not_whitelisted
    else task_action_invalid
