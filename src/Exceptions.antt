-- ===== src/Exceptions.antt =====
-- backend/app/exceptions: the business error codes, and the exceptions of the libraries that the
-- services let through.

-- `ErrorCode`, less the codes that only other parts of the program raise.
pub data ErrorCode : Type 0 where
  bad_request invalid_timestamp task_action_invalid : ErrorCode
  unauthorized invalid_credentials account_disabled agent_unauthorized : ErrorCode
  agent_signature_invalid agent_request_replayed agent_signature_missing : ErrorCode
  agent_timestamp_invalid forbidden service_not_whitelisted : ErrorCode
  not_found user_not_found role_not_found server_not_found rule_not_found : ErrorCode
  alert_event_not_found task_not_found task_execution_not_found server_service_not_found : ErrorCode
  conflict username_exists email_exists server_code_exists server_ip_exists : ErrorCode
  rule_name_exists internal_error : ErrorCode

-- `AppException` by its code, a failed dictionary lookup, an attribute of `None`, and a unique key
-- that a write breaks.
pub data Error : Type 0 where
  app : ErrorCode → Error
  key_error attribute_error integrity_error : Error
