-- ===== src/Users/Creation.antt =====
-- What `create_user` of backend/app/services/user_service.py comes to, as long as no user is deleted.
use ops_monitor.Users.Lookups.{
  NoName, NoEmail, of_has_email, Has-dedup, found, no_name, no_email, no_clash,
}
use ops_monitor.Users.Roles.{get_role_ids-set_roles}
use ops_monitor.Common.{
  String, ◌≢◌, ◌≡◌, true, some, ◌++◌, Option, ◌∷◌, ℕ, none, [], refl, false, is_some, ◌==◌, inl,
  Bool-cases, inr, subst, arith, str_eq, Option-cases, ◌∙◌, eq_iff, sym, ◌+◌, if◌then◌else◌,
  ==_refl, is_some-none, suc,
}
use ops_monitor.Common.Action.{Result, ok, err}
use ops_monitor.Common.Table
use ops_monitor.Common.Table.{Table}
use ops_monitor.Common.Table.Elements.{any-Has, Has-any}
use ops_monitor.Common.Table.Laws.{Has}
use ops_monitor.Exceptions.{app, username_exists, email_exists, role_not_found}
use ops_monitor.Users.Model.{user_entity, role_entity, SysUser, UserCreate}
use ops_monitor.Users.Repository.{
  get_by_username, get_by_email, has_email, distinct_ids, breaks_key, get_role_ids, set_roles,
  create_user_row,
}
use ops_monitor.Users.Service.{
  email_taken, is_empty, new_user, create_user, validate_roles, missing_role,
}
use ops_monitor.Users.Session.{Secrets, Session, next_salt}

module _ (secrets : Secrets) (body : UserCreate) (s : Session) where
  -- What a user is created as.
  pub record IsAdded (user : SysUser) (s' : Session) : Type 0 where
    pub rows : s'.users.rows ≡ s.users.rows ++ user ∷ []
    pub id : user.id ≡ s.users.next_id
    pub username : user.username ≡ body.username
    pub email : user.email ≡ body.email
    pub hashed : user.password_hash ≡ secrets.hash body.password (s.salts 0)
    pub enabled : user.status ≡ 1
    pub own_roles :
        is_empty body.role_ids ≡ false
        → get_role_ids user.id s'.user_roles ≡ distinct_ids body.role_ids
    pub other_roles :
        (other : ℕ)
        → (other == user.id) ≡ false
        → get_role_ids other s'.user_roles ≡ get_role_ids other s.user_roles

  -- The four ways in which a call can end: the name is another user's, or the email is, or there is
  -- no role of a given id, or the user is created.
  pub data Creation : Result (SysUser × Session) → Type 0 where
    taken_name :
        (u : SysUser)
        → Has u s.users.rows
        → u.username ≡ body.username
        → Creation (err (app username_exists))
    taken_email :
        (u : SysUser) (e : String)
        → NoName body s
        → Has u s.users.rows
        → body.email ≡ some e
        → u.email ≡ some e
        → Creation (err (app email_exists))
    unknown_role :
        (id : ℕ)
        → NoName body s
        → NoEmail body s
        → Has id body.role_ids
        → Table.get id s.roles ≡ none
        → Creation (err (app role_not_found))
    added :
        (user : SysUser) (s' : Session)
        → NoName body s
        → NoEmail body s
        → ((id : ℕ) → Has id (distinct_ids body.role_ids) → is_some (Table.get id s.roles) ≡ true)
        → IsAdded user s'
        → Creation (ok (user, s'))

  abbrev new : SysUser
  new = new_user secrets body (secrets.hash body.password (s.salts 0)) s.users.next_id

  -- The session after the user is created.
  abbrev after : Session
  after = record s {
    users = record { rows = s.users.rows ++ new ∷ []; next_id = s.users.next_id + 1 };
    user_roles =
        if is_empty body.role_ids
        then s.user_roles
        else set_roles s.users.next_id body.role_ids s.user_roles;
    salts = λ n. s.salts (suc n);
  }

  same_name_lem :
      (u : SysUser)
      → get_by_username body.username s.users ≡ some u
      → create_user secrets body s ≡ err (app username_exists)
  unfolding create_user
  same_name_lem u q = rw q refl

  module _ (n : get_by_username body.username s.users ≡ none) where
    same_email_lem :
        email_taken body.email s ≡ true → create_user secrets body s ≡ err (app email_exists)
    unfolding create_user
    same_email_lem e = rw (n, e) refl

    module _ (e : email_taken body.email s ≡ false) where
      no_role_lem :
          missing_role s (distinct_ids body.role_ids) ≡ true
          → create_user secrets body s ≡ err (app role_not_found)
      unfolding create_user validate_roles
      no_role_lem m = rw (n, e, m) refl

      added_lem :
          missing_role s (distinct_ids body.role_ids) ≡ false
          → breaks_key new s.users ≡ false
          → create_user secrets body s ≡ ok (new, after)
      unfolding create_user validate_roles next_salt create_user_row Table.create
      added_lem m b = elim (Bool-cases (is_empty body.role_ids)) [
        | inl r ↦ rw (n, e, m, b, r) refl
        | inr r ↦ rw (n, e, m, b, r) refl
      ]

  new-IsAdded : IsAdded new after
  new-IsAdded = record {
    rows = refl;
    id = refl;
    username = refl;
    email = refl;
    hashed = refl;
    enabled = refl;
    own_roles = λ r. rw r (
        get_role_ids-set_roles s.users.next_id s.users.next_id body.role_ids s.user_roles
        ∙ (rw (==_refl s.users.next_id) refl));
    other_roles = λ other ne. elim (Bool-cases (is_empty body.role_ids)) [
      | inl r ↦ rw r refl
      | inr r ↦
          rw r
            (get_role_ids-set_roles s.users.next_id other body.role_ids s.user_roles ∙ (rw ne refl))
    ];
  }

  -- As long as no user is deleted, and the email is not the empty text, `create_user` never runs into
  -- a unique key of the database: it is refused because another user has the name or else the email,
  -- or because a role does not exist, or it creates the user, whose name and email are then no other
  -- user's, with the hash of the password and, if roles are given, exactly these, and no one else's
  -- roles change.
  pub create_user-Creation :
      ((u : SysUser) → Has u s.users.rows → u.deleted_at ≡ none)
      → body.email ≢ some ""
      → Creation (create_user secrets body s)
  unfolding Table.get_by get_by_username get_by_email
  create_user-Creation live ne = elim (Option-cases (get_by_username body.username s.users)) [
    | inr u ↦ subst Creation (sym (same_name_lem u.0 u.1)) (of_name u.0 u.1)
    | inl n ↦ elim (Bool-cases (email_taken body.email s)) [
      | inl e ↦ subst Creation (sym (same_email_lem n e)) (of_email n body.email refl e)
      | inr e ↦ elim (Bool-cases (missing_role s (distinct_ids body.role_ids))) [
        | inl m ↦
            let r = any-Has _ (distinct_ids body.role_ids) m in
            subst Creation (sym (no_role_lem n e m)) (
              unknown_role r.0 (no_name body s live n) (no_email body s live ne e)
                (Has-dedup r.0 body.role_ids r.1.0)
                (is_some-none (Table.get r.0 s.roles) (ground (arith, r.1.1))))
        | inr m ↦
            let name = no_name body s live n in
            let email = no_email body s live ne e in
            subst Creation (sym (added_lem n e m (no_clash body s live name email new refl refl)))
              (added new after name email (roles m) new-IsAdded)
      ]
    ]
  ]
    where
      of_name :
          (u : SysUser)
          → get_by_username body.username s.users ≡ some u
          → Creation (err (app username_exists))
      of_name u q =
          let f = found body s live (λ v. str_eq v.username body.username) u q in
          taken_name u f.0 ((eq_iff u.username body.username).0 f.1)

      of_email :
          get_by_username body.username s.users ≡ none
          → (o : Option String) → body.email ≡ o
          → email_taken o s ≡ true
          → Creation (err (app email_exists))
      of_email n none q e = absurd (let z : false ≡ true = e in cc)
      of_email n (some e) q t = elim (Option-cases (get_by_email e s.users)) [
        | inl z ↦
            absurd (let w : is_some (get_by_email e s.users) ≡ false = rw z refl in ground arith)
        | inr u ↦
            let f = found body s live (has_email e) u.0 u.1 in
            taken_email u.0 e (no_name body s live n) f.0 q (of_has_email e u.0 f.1)
      ]

      roles :
          missing_role s (distinct_ids body.role_ids) ≡ false
          → (id : ℕ) → Has id (distinct_ids body.role_ids)
          → is_some (Table.get id s.roles) ≡ true
      roles m id h = elim (Bool-cases (is_some (Table.get id s.roles))) [
        | inl t ↦ t
        | inr f ↦
            let k : missing_role s (distinct_ids body.role_ids) ≡ true =
              Has-any _ id (distinct_ids body.role_ids) h (rw f refl) in
            absurd (let z : true ≡ false = sym k ∙ m in cc)
      ]
