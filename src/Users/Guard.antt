-- ===== src/Users/Guard.antt =====
-- Whom a role guard lets through: `require_roles` of backend/app/api/v1/deps.py.
use ops_monitor.Common.Table.Elements.{any-Has, Has-any}
use ops_monitor.Users.Model.{user_entity}
use ops_monitor.Exceptions.{app, forbidden}
use ops_monitor.Common.Table.Laws.{Has, id-get}
use ops_monitor.Users.Repository.{get_roles_by_user}
use ops_monitor.Common.Action.{ok, pure}
use ops_monitor.Common.Action.Post.{Post, Post-raise_if}
use ops_monitor.Users.Model.{SysUser}
use ops_monitor.Common.{
  ℕ, String, ◌==◌, List, ◌≡◌, some, suc, map, true, refl, Option-cases, inl, inr, Bool-cases, any,
  str_eq, not, arith, ==→eq, subst, sym, eq_iff, eq_refl,
}
use ops_monitor.Users.Login.{
  TokenSettings, get_current_user, require_roles, decode_access_token, get_current_roles,
}
use ops_monitor.Users.Session.{Secrets, Session, utcnow}
use ops_monitor.Common.Table

module _ (secrets : Secrets) (settings : TokenSettings) (codes_ : List String) (token : String)
    (s : Session) where
  abbrev codes_of : ℕ → List String
  codes_of id = map (λ r. r.role_code) (get_roles_by_user id s)

  abbrev later : Session
  later = record s { clock = λ n. s.clock (suc n) }

  -- What holds of the user of every token that each check lets through.
  require_roles-Post :
      (Q : SysUser → Session → Type 0)
      → ((d : ℕ)
          → secrets.decode token (s.clock 0) ≡ some d
          → (u : SysUser) → Table.get d s.users ≡ some u
          → (u.status == 1) ≡ true
          → any (λ code. any (str_eq code) (codes_of u.id)) codes_ ≡ true
          → Q u later)
      → Post Q (require_roles secrets settings codes_ token s)
  unfolding require_roles get_current_user decode_access_token get_current_roles utcnow
  require_roles-Post Q f = elim (Option-cases (secrets.decode token (s.clock 0))) [
    | inl n ↦ rw n tt
    | inr d ↦ elim (Option-cases (Table.get d.0 s.users)) [
      | inl n ↦ rw (d.1, n) tt
      | inr u ↦ elim (Bool-cases (u.0.status == 1)) [
        | inr n ↦ rw (d.1, u.1, n) tt
        | inl e ↦
            rw (d.1, u.1, e)
              (Post-raise_if Q (not (any (λ code. any (str_eq code) (codes_of u.0.id)) codes_))
                (app forbidden) (pure u.0) later (λ a. f d.0 d.1 u.0 u.1 e (ground arith)))
      ]
    ]
  ]

  -- Everyone whom each check lets through.
  require_roles-ok :
      (user : SysUser) (code : String)
      → secrets.decode token (s.clock 0) ≡ some user.id
      → Table.get user.id s.users ≡ some user
      → user.status ≡ 1
      → Has code codes_
      → Has code (codes_of user.id)
      → require_roles secrets settings codes_ token s ≡ ok (user, later)
  unfolding require_roles get_current_user decode_access_token get_current_roles utcnow
  require_roles-ok user code decoded found e asked held =
      let n : (user.status == 1) ≡ true = rw e refl in
      let a : any (str_eq code) (codes_of user.id) ≡ true =
        Has-any (str_eq code) code (codes_of user.id) held (eq_refl code) in
      let b : any (λ c. any (str_eq c) (codes_of user.id)) codes_ ≡ true =
        Has-any (λ c. any (str_eq c) (codes_of user.id)) code codes_ asked a in
      rw (decoded, found, n, b) refl

  -- A request that a role guard lets through comes with a token of an enabled user who is not
  -- deleted, and who has a role with one of the codes that the guard asks for; and the guard lets
  -- every such request through, with no change but that of the clock.
  pub require_roles-IsAllowed :
      Post
        (λ user s'.
          (secrets.decode token (s.clock 0) ≡ some user.id)
          × (Table.get user.id s.users ≡ some user)
          × (user.status ≡ 1)
          × ((code : String) × Has code codes_
              × Has code (map (λ r. r.role_code) (get_roles_by_user user.id s))))
        (require_roles secrets settings codes_ token s)
      × ((user : SysUser) (code : String)
          → secrets.decode token (s.clock 0) ≡ some user.id
          → Table.get user.id s.users ≡ some user
          → user.status ≡ 1
          → Has code codes_
          → Has code (map (λ r. r.role_code) (get_roles_by_user user.id s))
          → require_roles secrets settings codes_ token s
            ≡ ok (user, record s { clock = λ n. s.clock (suc n) }))
  require_roles-IsAllowed = (
    require_roles-Post
        (λ user s'.
          (secrets.decode token (s.clock 0) ≡ some user.id)
          × (Table.get user.id s.users ≡ some user)
          × (user.status ≡ 1)
          × ((code : String) × Has code codes_ × Has code (codes_of user.id)))
        (λ d decoded u found e allowed.
          let a = any-Has (λ code. any (str_eq code) (codes_of u.id)) codes_ allowed in
          let b = any-Has (str_eq a.0) (codes_of u.id) a.1.1 in
          let i : u.id ≡ d = id-get d s.users found in
          (
            subst (λ k. secrets.decode token (s.clock 0) ≡ some k) (sym i) decoded,
            subst (λ k. Table.get k s.users ≡ some u) (sym i) found,
            ==→eq u.status 1 e,
            (a.0, a.1.0, subst (λ c. Has c (codes_of u.id)) (sym ((eq_iff a.0 b.0).0 b.1.1)) b.1.0),
          )),
    require_roles-ok,
  )
