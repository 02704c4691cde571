-- ===== src/Users/Model.antt =====
-- The rows of backend/app/models/user.py, `SysLoginLog` of models/audit.py, and the bodies of
-- schemas/user.py. Left out are the columns that the database fills in.
use ops_monitor.Common.{ℕ, is_some, false, String, Option, List}
use ops_monitor.Common.Table.{Entity}

pub record SysUser : Type 0 where
  pub id : ℕ
  pub username : String
  pub password_hash : String
  pub nickname : Option String
  pub email : Option String
  pub phone : Option String
  pub status : ℕ
  pub last_login_at : Option ℕ
  pub last_login_ip : Option String
  pub deleted_at : Option ℕ

instance abbrev pub user_entity : Entity SysUser
user_entity = record { id_of = λ u. u.id; is_deleted = λ u. is_some u.deleted_at }

pub record SysRole : Type 0 where
  pub id : ℕ
  pub role_code : String
  pub role_name : String
  pub description : Option String
  pub status : ℕ

instance abbrev pub role_entity : Entity SysRole
role_entity = record { id_of = λ r. r.id; is_deleted = λ _. false }

pub record SysUserRole : Type 0 where
  pub user_id : ℕ
  pub role_id : ℕ

pub data LoginStatus : Type 0 where
  success failed : LoginStatus

pub record SysLoginLog : Type 0 where
  pub id : ℕ
  pub user_id : Option ℕ
  pub username : String
  pub login_ip : Option String
  pub user_agent : Option String
  pub login_status : LoginStatus
  pub failure_reason : Option String
  pub request_id : Option String

instance abbrev pub login_log_entity : Entity SysLoginLog
login_log_entity = record { id_of = λ l. l.id; is_deleted = λ _. false }

pub record UserCreate : Type 0 where
  pub username : String
  pub password : String
  pub nickname : Option String
  pub email : Option String
  pub phone : Option String
  pub role_ids : List ℕ

-- A field of an update: not in the body, or in it, where it may be null.
pub data Field (A : Type 0) : Type 0 where
  unset : Field A
  given : Option A → Field A

pub record UserUpdate : Type 0 where
  pub password : Field String
  pub nickname : Field String
  pub email : Field String
  pub phone : Field String
  pub status : Field ℕ
  pub role_ids : Field (List ℕ)
