-- ===== src/Users/Service.antt =====
-- backend/app/services/user_service.py: `UserService`.
use ops_monitor.Users.Model.{user_entity}
use ops_monitor.Common.Action.{◌>>◌, raise_if}
use ops_monitor.Users.Model.{role_entity, SysUser}
use ops_monitor.Common.Action.{◌>>=◌, gets, or_raise}
use ops_monitor.Exceptions.{
  integrity_error, app, role_not_found, user_not_found, username_exists, email_exists,
}
use ops_monitor.Tasks.Retry.{is_given}
use ops_monitor.Users.Repository.{
  save_user, create_user_row, get_by_email, distinct_ids, set_roles, get_by_username, has_email,
}
use ops_monitor.Users.Model.{UserCreate, Field, SysUser, given, unset, UserUpdate}
use ops_monitor.Common.Action.{Action, modify, pure, raise, err, ok}
use ops_monitor.Common.{
  List, ℕ, Option, Bool, String, any, if◌then◌else◌, true, none, false, not, ◌&&◌, [], some,
  is_some, str_eq, or_else, ◌==◌,
}
use ops_monitor.Users.Session.{Session, Secrets, next_salt, utcnow}
use ops_monitor.Common.Table

-- `_validate_roles`: the set is walked in some order, and the first missing role raises.
abbrev pub missing_role : Session → List ℕ → Bool
missing_role s ids = any (λ id. not (is_some (Table.get id s.roles))) ids

unfoldable pub validate_roles : List ℕ → Action Session (Unit {0})
validate_roles role_ids s =
    if missing_role s (distinct_ids role_ids) then err (app role_not_found) else ok (tt, s)

abbrev pub set_user_roles : (user_id : ℕ) → List ℕ → Action Session (Unit {0})
set_user_roles user_id role_ids =
    modify (λ s. record s { user_roles = set_roles user_id role_ids s.user_roles })

-- `data.email and get_by_email(data.email)`
abbrev pub email_taken : Option String → Session → Bool
email_taken email s = is_given email && is_some (get_by_email (or_else email "") s.users)

abbrev pub is_empty : List ℕ → Bool
is_empty [] = true
is_empty _ = false

unfoldable pub get_user : (user_id : ℕ) → Action Session SysUser
get_user user_id = do
  found ← gets (λ s. Table.get user_id s.users)
  or_raise found (app user_not_found)

module _ (secrets : Secrets) where
  abbrev pub new_user : UserCreate → (password_hash : String) → ℕ → SysUser
  new_user body password_hash id = record {
    id = id;
    username = body.username;
    password_hash = password_hash;
    nickname = body.nickname;
    email = body.email;
    phone = body.phone;
    status = 1;
    last_login_at = none;
    last_login_ip = none;
    deleted_at = none;
  }

  unfoldable pub create_user : UserCreate → Action Session SysUser
  unfolding validate_roles next_salt create_user_row get_by_username get_by_email set_roles
  create_user body = do
    taken ← gets (λ s. is_some (get_by_username body.username s.users))
    raise_if taken (app username_exists)
    email ← gets (email_taken body.email)
    raise_if email (app email_exists)
    validate_roles body.role_ids
    salt ← next_salt
    user ← create_user_row (new_user body (secrets.hash body.password salt))
    (if is_empty body.role_ids then pure tt else set_user_roles user.id body.role_ids)
    pure user

  -- A field of the update over the old value.
  abbrev pub updated : Field String → Option String → Option String
  updated unset old = old
  updated (given v) old = v

  -- The new hash, if the password is given and not empty.
  unfoldable pub updated_hash : Field String → (old : String) → Action Session String
  unfolding next_salt
  updated_hash unset old = pure old
  updated_hash (given none) old = pure old
  updated_hash (given (some password)) old =
      if str_eq password ""
      then pure old
      else (do salt ← next_salt; pure (secrets.hash password salt))

  -- NULL in a column that must not be NULL breaks the write.
  abbrev pub updated_status : Field ℕ → ℕ → Action Session ℕ
  updated_status unset old = pure old
  updated_status (given none) old = raise integrity_error
  updated_status (given (some status)) old = pure status

  -- `email and email != user.email`, and another user that has it.
  abbrev pub email_of_other : SysUser → Field String → Session → Bool
  email_of_other user unset s = false
  email_of_other user (given none) s = false
  email_of_other user (given (some email)) s =
      not (str_eq email "")
      && (not (has_email email user) && elim (get_by_email email s.users) [
        | none ↦ false
        | some existing ↦ not (existing.id == user.id)
      ])

  abbrev pub given_roles :
      Field (List ℕ) → (List ℕ → Action Session (Unit {0})) → Action Session (Unit {0})
  given_roles unset f = pure tt
  given_roles (given none) f = pure tt
  given_roles (given (some role_ids)) f = f role_ids

  unfoldable pub update_user : (user_id : ℕ) → UserUpdate → Action Session SysUser
  unfolding get_user updated_hash validate_roles save_user get_by_email set_roles
  update_user user_id body = do
    user ← get_user user_id
    hash ← updated_hash body.password user.password_hash
    taken ← gets (email_of_other user body.email)
    raise_if taken (app email_exists)
    given_roles body.role_ids validate_roles
    status ← updated_status body.status user.status
    saved ← save_user (record user {
      password_hash = hash;
      nickname = updated body.nickname user.nickname;
      email = updated body.email user.email;
      phone = updated body.phone user.phone;
      status = status;
    })
    given_roles body.role_ids (set_user_roles saved.id)
    pure saved

  unfoldable pub delete_user : (user_id : ℕ) → Action Session (Unit {0})
  unfolding get_user utcnow save_user
  delete_user user_id = do
    user ← get_user user_id
    now ← utcnow
    save_user (record user { deleted_at = some now })
    pure tt
