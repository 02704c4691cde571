-- ===== src/Users/Access.antt =====
-- What a login grants, and whom a token lets in.

use ops_monitor.Tasks.Retry.{is_given}
use ops_monitor.Users.Model.{login_log_entity, success}
use ops_monitor.Users.Model.{user_entity}
use ops_monitor.Exceptions.{app, account_disabled, unauthorized, invalid_credentials}
use ops_monitor.Users.Repository.{
  create_login_log, update_last_login, save_user, get_by_username, breaks_key,
}
use ops_monitor.Common.Action.{ok, err}
use ops_monitor.Users.Model.{SysUser, SysLoginLog, failed}
use ops_monitor.Common.{
  ℕ, ◌+◌, String, ◌*◌, ◌/◌, ◌==◌, ◌<◌, ◌≡◌, some, false, ne→==, suc, ◌≢◌, none, ◌≤◌, true, refl,
  if◌then◌else◌,
}
use ops_monitor.Users.Login.{
  TokenSettings, get_current_user, LoginRequest, decode_access_token, login, login_as, refuse_login,
  grant_login, create_access_token, refused, log_row, granted,
}
use ops_monitor.Users.Session.{Secrets, IsJwt, Session, utcnow}
use ops_monitor.Common.Table

module _ (secrets : Secrets) (settings : TokenSettings) (jwt : IsJwt secrets) where
  -- When a token ends that is issued at a time.
  abbrev pub ends : ℕ → ℕ
  ends issued = issued + settings.jwt_expire_minutes * 60 * 1000000

  -- A request after the login, in a session `t`: the outcome of `get_current_user`.
  pub record Admits (user_id issued : ℕ) (token : String) (t : Session) : Type 0 where
    pub admitted :
        (u : SysUser)
        → issued / 1000000 ≤ t.clock 0 / 1000000
        → t.clock 0 / 1000000 < ends issued / 1000000
        → Table.get user_id t.users ≡ some u
        → u.status ≡ 1
        → get_current_user secrets settings token t
          ≡ ok (u, record t { clock = λ n. t.clock (suc n) })
    pub disabled :
        (u : SysUser)
        → issued / 1000000 ≤ t.clock 0 / 1000000
        → t.clock 0 / 1000000 < ends issued / 1000000
        → Table.get user_id t.users ≡ some u
        → u.status ≢ 1
        → get_current_user secrets settings token t ≡ err (app account_disabled)
    pub removed :
        issued / 1000000 ≤ t.clock 0 / 1000000
        → t.clock 0 / 1000000 < ends issued / 1000000
        → Table.get user_id t.users ≡ none
        → get_current_user secrets settings token t ≡ err (app unauthorized)
    pub expired :
        ends issued / 1000000 ≤ t.clock 0 / 1000000
        → get_current_user secrets settings token t ≡ err (app unauthorized)

  token-Admits :
      (user_id issued : ℕ) (t : Session)
      → Admits user_id issued (secrets.encode user_id issued (ends issued)) t
  unfolding get_current_user decode_access_token utcnow
  token-Admits user_id issued t = record {
    admitted =
        λ u o f g e. rw (jwt.decoded user_id issued (ends issued) (t.clock 0) o f, g, e) refl;
    disabled = λ u o f g e.
        let n : (u.status == 1) ≡ false = ne→== u.status 1 e in
        rw (jwt.decoded user_id issued (ends issued) (t.clock 0) o f, g, n) refl;
    removed = λ o f g. rw (jwt.decoded user_id issued (ends issued) (t.clock 0) o f, g) refl;
    expired = λ f. rw (jwt.expired user_id issued (ends issued) (t.clock 0) f) refl;
  }

  module _ (r : LoginRequest) (s : Session) where
    -- The session with one more row in the log.
    abbrev pub logged : (ℕ → SysLoginLog) → Session → Session
    logged f t = record t { login_logs = (Table.create f t.login_logs).1 }

    -- A login with an unknown name or a wrong password is refused, and so is one of a user who is
    -- disabled, each with one row in the log and no other change; and the login of an enabled user
    -- with the right password grants a token, which lets that user in, in whatever session comes
    -- later, until it expires, the user is disabled or the user is deleted. That the user's own row
    -- breaks no unique key of the table is assumed.
    pub login-Admits :
        (get_by_username r.username s.users ≡ none
          → login secrets settings r s
            ≡ ok (refused invalid_credentials, logged (log_row r none failed (some "用户名或密码错误")) s))
        × ((user : SysUser)
            → get_by_username r.username s.users ≡ some user
            → (secrets.verify r.password user.password_hash ≡ false
                → login secrets settings r s
                  ≡ ok (
                    refused invalid_credentials,
                    logged (log_row r none failed (some "用户名或密码错误")) s,
                  ))
              × (secrets.verify r.password user.password_hash ≡ true
                  → user.status ≢ 1
                  → login secrets settings r s
                    ≡ ok (
                      refused account_disabled,
                      logged (log_row r (some user.id) failed (some "账号已禁用")) s,
                    ))
              × (secrets.verify r.password user.password_hash ≡ true
                  → user.status ≡ 1
                  → breaks_key user s.users ≡ false
                  → (s' : Session) × (login secrets settings r s
                      ≡ ok (
                        granted
                            (secrets.encode user.id (s.clock 1) (ends (s.clock 1)))
                            (settings.jwt_expire_minutes * 60),
                        s',
                      ))
                    × ((t : Session)
                        → Admits user.id
                            (s.clock 1)
                            (secrets.encode user.id (s.clock 1) (ends (s.clock 1)))
                            t)))
    unfolding login login_as refuse_login grant_login create_login_log update_last_login save_user
        create_access_token utcnow
    login-Admits = (
      λ g. rw g refl,
      λ user g. (
        λ v. rw (g, v) refl,
        λ v e. let n : (user.status == 1) ≡ false = ne→== user.status 1 e in rw (g, v, n) refl,
        λ v e b. (
          record s {
            users = Table.save (updated user) s.users;
            clock = λ n. s.clock (suc (suc n));
            login_logs = (Table.create (log_row r (some user.id) success none) s.login_logs).1;
          },
          (let n : (user.status == 1) ≡ true = rw e refl in rw (g, v, n, b) refl),
          λ t. token-Admits user.id (s.clock 1) t,
        ),
      ),
    )
      where
        -- The user after the login.
        updated : SysUser → SysUser
        updated user = record user {
          last_login_at = some (s.clock 0);
          last_login_ip = if is_given r.ip then r.ip else user.last_login_ip;
        }
