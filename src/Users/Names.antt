-- ===== src/Users/Names.antt =====
-- Names of deleted users: `create_user` of backend/app/services/user_service.py.
use ops_monitor.Common.Table.Elements.{Has-any}
use ops_monitor.Users.Model.{user_entity}
use ops_monitor.Exceptions.{integrity_error}
use ops_monitor.Common.Action.{err}
use ops_monitor.Common.{◌≡◌, none, false, true, refl, ◌<◌, ◌==◌, ne→==, arith, str_eq, eq_refl}
use ops_monitor.Common.Table.Laws.{Has, IsTable, All-Has}
use ops_monitor.Users.Repository.{create_user_row, get_by_username, distinct_ids, breaks_key}
use ops_monitor.Users.Service.{create_user, validate_roles, email_taken, missing_role, new_user}
use ops_monitor.Users.Model.{UserCreate, SysUser}
use ops_monitor.Users.Session.{Secrets, Session, next_salt}
use ops_monitor.Common.Table

module _ (secrets : Secrets) (body : UserCreate) (s : Session) where
  -- A user cannot be created with the name of a deleted one: the lookup of the name passes over
  -- deleted rows and the unique key does not, so that the call fails with an IntegrityError in place
  -- of USERNAME_EXISTS.
  pub create_user-deleted_name :
      (old : SysUser)
      → Has old s.users.rows
      → old.username ≡ body.username
      → IsTable s.users
      → get_by_username body.username s.users ≡ none
      → email_taken body.email s ≡ false
      → missing_role s (distinct_ids body.role_ids) ≡ false
      → create_user secrets body s ≡ err integrity_error
  unfolding create_user validate_roles next_salt create_user_row Table.create
  create_user-deleted_name old h n w g e m = rw (g, e, m, clash) refl
    where
      clash :
          breaks_key
            (new_user secrets body (secrets.hash body.password (s.salts 0)) s.users.next_id)
            s.users
          ≡ true
      clash =
          let b : old.id < s.users.next_id =
            All-Has (λ u. u.id < s.users.next_id) old s.users.rows w.below h in
          let i : (old.id == s.users.next_id) ≡ false =
            ne→== old.id s.users.next_id (λ q. absurd (omega arith)) in
          let u : str_eq old.username body.username ≡ true = rw n (eq_refl body.username) in
          Has-any _ old s.users.rows h (rw (i, u) refl)
