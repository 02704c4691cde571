-- ===== src/Users/Repository.antt =====
-- `UserRepository` and `RoleRepository` of backend/app/repositories/user_repository.py, and
-- `create_login_log` of repositories/audit_repository.py.
use ops_monitor.Tasks.Retry.{is_given}
use ops_monitor.Users.Model.{login_log_entity}
use ops_monitor.Users.Model.{user_entity}
use ops_monitor.Common.Action.{◌>>=◌}
use ops_monitor.Exceptions.{integrity_error}
use ops_monitor.Common.Action.{Action, ok, err}
use ops_monitor.Common.Table.{Table}
use ops_monitor.Users.Session.{utcnow, Session}
use ops_monitor.Users.Model.{SysUser, SysUserRole, SysLoginLog, SysRole}
use ops_monitor.Common.{
  String, ℕ, List, dedup, Bool, Option, ◌==◌, str_eq, any, if◌then◌else◌, filter, map, none, false,
  not, ◌&&◌, some, ◌||◌, ◌++◌,
}
use ops_monitor.Common.Table

unfoldable pub get_by_username : String → Table SysUser → Option SysUser
get_by_username username t = Table.get_by (λ u. str_eq u.username username) t

-- `email = value`, which NULL never is.
abbrev pub has_email : String → SysUser → Bool
has_email email u = elim u.email [ none ↦ false | some e ↦ str_eq e email ]

unfoldable pub get_by_email : String → Table SysUser → Option SysUser
get_by_email email t = Table.get_by (has_email email) t

-- The unique keys `uk_sys_user_username` and `uk_sys_user_email`: they count deleted rows too.
abbrev pub same_email : SysUser → SysUser → Bool
same_email u v = elim u.email [ none ↦ false | some e ↦ has_email e v ]

abbrev pub breaks_key : SysUser → Table SysUser → Bool
breaks_key u t =
    any (λ v. not (v.id == u.id) && (str_eq v.username u.username || same_email u v)) t.rows

-- `create`, and the flush of a changed row.
unfoldable pub create_user_row : (ℕ → SysUser) → Action Session SysUser
create_user_row f s =
    let created = Table.create f s.users in
    if breaks_key created.0 s.users
    then err integrity_error
    else ok (created.0, record s { users = created.1 })

unfoldable pub save_user : SysUser → Action Session SysUser
save_user user s =
    if breaks_key user s.users
    then err integrity_error
    else ok (user, record s { users = Table.save user s.users })

unfoldable pub update_last_login : SysUser → (ip : Option String) → Action Session SysUser
unfolding utcnow save_user
update_last_login user ip = do
  now ← utcnow
  save_user (record user {
    last_login_at = some now;
    last_login_ip = if is_given ip then ip else user.last_login_ip;
  })

abbrev pub roles_of : (user_id : ℕ) → List SysUserRole → List SysUserRole
roles_of user_id rows = filter (λ r. r.user_id == user_id) rows

-- The join: the role of every row of the user. A foreign key keeps every role that a row names.
unfoldable pub get_roles_by_user : (user_id : ℕ) → Session → List SysRole
get_roles_by_user user_id s =
    filter (λ role. any (λ r. r.role_id == role.id) (roles_of user_id s.user_roles)) s.roles.rows

unfoldable pub get_role_ids : (user_id : ℕ) → List SysUserRole → List ℕ
get_role_ids user_id rows = map (λ r. r.role_id) (roles_of user_id rows)

-- `set(role_ids)`
abbrev pub distinct_ids : List ℕ → List ℕ
distinct_ids ids = dedup (λ a b. a == b) ids

unfoldable pub set_roles : (user_id : ℕ) → (role_ids : List ℕ) → List SysUserRole → List SysUserRole
set_roles user_id role_ids rows =
    filter (λ r. not (r.user_id == user_id)) rows
    ++ map (λ id. record { user_id = user_id; role_id = id }) (distinct_ids role_ids)

unfoldable pub create_login_log : (ℕ → SysLoginLog) → Action Session (Unit {0})
create_login_log f s = ok (tt, record s { login_logs = (Table.create f s.login_logs).1 })
