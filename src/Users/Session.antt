-- ===== src/Users/Session.antt =====
-- The database session of the services for users, the clock, and the random salts of bcrypt.
use ops_monitor.Common.Action.{Action, ok}
use ops_monitor.Common.{String, ℕ, Bool, ◌/◌, List, Option, ◌<◌, suc, ◌≡◌, some, ◌≤◌, none}
use ops_monitor.Users.Model.{SysUser, SysRole, SysUserRole, SysLoginLog}
use ops_monitor.Common.Table.{Table}

pub record Session : Type 0 where
  pub users : Table SysUser
  pub roles : Table SysRole
  pub user_roles : List SysUserRole
  pub login_logs : Table SysLoginLog
  pub clock : ℕ → ℕ
  pub salts : ℕ → ℕ

-- What passlib and PyJWT do. A token is decoded at a time in microseconds; none is any of the
-- exceptions that `decode_access_token` catches.
pub record Secrets : Type 0 where
  pub hash : (password : String) → (salt : ℕ) → String
  pub verify : (password hashed : String) → Bool
  pub encode : (sub iat exp : ℕ) → String
  pub decode : String → (now : ℕ) → Option ℕ

-- What PyJWT documents: a token that it encoded is decoded to its subject from the time of its
-- issue until it expires, and refused from then on. All these count whole seconds.
pub record IsJwt (secrets : Secrets) : Type 0 where
  pub decoded :
      (sub iat exp now : ℕ)
      → iat / 1000000 ≤ now / 1000000
      → now / 1000000 < exp / 1000000
      → secrets.decode (secrets.encode sub iat exp) now ≡ some sub
  pub expired :
      (sub iat exp now : ℕ)
      → exp / 1000000 ≤ now / 1000000
      → secrets.decode (secrets.encode sub iat exp) now ≡ none

-- The next reading of the clock, and the next salt.
unfoldable pub utcnow : Action Session ℕ
utcnow s = ok (s.clock 0, record s { clock = λ n. s.clock (suc n) })

unfoldable pub next_salt : Action Session ℕ
next_salt s = ok (s.salts 0, record s { salts = λ n. s.salts (suc n) })
