-- ===== src/Users/Login.antt =====
-- backend/app/services/auth_service.py: `login`; core/security.py; and `get_current_user`,
-- `get_current_roles` and `require_roles` of api/v1/deps.py.
use ops_monitor.Users.Model.{user_entity}
use ops_monitor.Common.Action.{◌>>◌, pure, or_raise, raise_if}
use ops_monitor.Common.Action.{◌>>=◌}
use ops_monitor.Common.Action.{Action, gets}
use ops_monitor.Users.Repository.{
  create_login_log, get_by_username, get_roles_by_user, update_last_login,
}
use ops_monitor.Users.Model.{LoginStatus, SysUser, SysLoginLog, failed, success}
use ops_monitor.Exceptions.{
  ErrorCode, invalid_credentials, account_disabled, app, unauthorized, forbidden,
}
use ops_monitor.Users.Session.{Secrets, utcnow, Session}
use ops_monitor.Common.{
  ℕ, String, Option, List, map, some, if◌then◌else◌, not, none, ◌==◌, ◌+◌, ◌*◌, any, str_eq,
}
use ops_monitor.Common.Table

-- `JWT_EXPIRE_MINUTES`
pub record TokenSettings : Type 0 where
  pub jwt_expire_minutes : ℕ

pub record LoginRequest : Type 0 where
  pub username : String
  pub password : String
  pub ip : Option String
  pub user_agent : Option String
  pub request_id : Option String

-- `TokenResponse`, or the exception that is raised after the commit of the log.
pub data LoginOutcome : Type 0 where
  granted : (access_token : String) → (expires_in : ℕ) → LoginOutcome
  refused : ErrorCode → LoginOutcome

abbrev pub log_row :
    LoginRequest
    → (user_id : Option ℕ) → LoginStatus
    → (failure_reason : Option String) → ℕ
    → SysLoginLog
log_row r user_id status failure_reason id = record {
  id = id;
  user_id = user_id;
  username = r.username;
  login_ip = r.ip;
  user_agent = r.user_agent;
  login_status = status;
  failure_reason = failure_reason;
  request_id = r.request_id;
}

module _ (secrets : Secrets) (settings : TokenSettings) where
  unfoldable pub create_access_token : (user_id : ℕ) → Action Session String
  unfolding utcnow
  create_access_token user_id = do
    now ← utcnow
    pure (secrets.encode user_id now (now + settings.jwt_expire_minutes * 60 * 1000000))

  unfoldable pub decode_access_token : String → Action Session ℕ
  unfolding utcnow
  decode_access_token token = do
    now ← utcnow
    or_raise (secrets.decode token now) (app unauthorized)

  unfoldable pub refuse_login :
      LoginRequest
      → (user_id : Option ℕ) → (reason : String) → ErrorCode
      → Action Session LoginOutcome
  unfolding create_login_log
  refuse_login r user_id reason code = do
    create_login_log (log_row r user_id failed (some reason))
    pure (refused code)

  unfoldable pub grant_login : LoginRequest → SysUser → Action Session LoginOutcome
  unfolding create_login_log update_last_login create_access_token
  grant_login r user = do
    updated ← update_last_login user r.ip
    token ← create_access_token updated.id
    create_login_log (log_row r (some updated.id) success none)
    pure (granted token (settings.jwt_expire_minutes * 60))

  -- What follows the lookup of the user.
  unfoldable pub login_as : LoginRequest → Option SysUser → Action Session LoginOutcome
  unfolding refuse_login grant_login
  login_as r none = refuse_login r none "用户名或密码错误" invalid_credentials
  login_as r (some user) =
      if not (secrets.verify r.password user.password_hash)
      then refuse_login r none "用户名或密码错误" invalid_credentials
      else if not (user.status == 1)
      then refuse_login r (some user.id) "账号已禁用" account_disabled
      else grant_login r user

  unfoldable pub login : LoginRequest → Action Session LoginOutcome
  unfolding login_as get_by_username
  login r = do found ← gets (λ s. get_by_username r.username s.users); login_as r found

  unfoldable pub get_current_user : (token : String) → Action Session SysUser
  unfolding decode_access_token
  get_current_user token = do
    user_id ← decode_access_token token
    found ← gets (λ s. Table.get user_id s.users)
    user ← or_raise found (app unauthorized)
    raise_if (not (user.status == 1)) (app account_disabled)
    pure user

  unfoldable pub get_current_roles : SysUser → Action Session (List String)
  unfolding get_roles_by_user
  get_current_roles user = gets (λ s. map (λ r. r.role_code) (get_roles_by_user user.id s))

  -- The dependency that `require_roles(*role_codes)` returns.
  unfoldable pub require_roles :
      (role_codes : List String) → (token : String) → Action Session SysUser
  unfolding get_current_user get_current_roles
  require_roles role_codes token = do
    user ← get_current_user token
    roles ← get_current_roles user
    raise_if (not (any (λ code. any (str_eq code) roles) role_codes)) (app forbidden)
    pure user
