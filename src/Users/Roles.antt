-- ===== src/Users/Roles.antt =====
-- The roles of a user after `set_roles` of backend/app/repositories/user_repository.py.
use ops_monitor.Users.Model.{SysUserRole}
use ops_monitor.Users.Repository.{get_role_ids, set_roles, roles_of, distinct_ids}
use ops_monitor.Common.{
  Bool, ℕ, List, filter, map, ◌++◌, not, ◌≡◌, ◌∷◌, ◌==◌, if◌then◌else◌, Bool-cases, [], arith, inl,
  refl, inr, ap, ◌∙◌,
}

filter-append :
    {A : Type 0} (p : A → Bool) (xs ys : List A) → filter p (xs ++ ys) ≡ filter p xs ++ filter p ys
filter-append p [] ys = refl
filter-append p (x ∷ xs) ys =
    let i = filter-append p xs ys in
    elim (Bool-cases (p x)) [ inl t ↦ rw (t, i) refl | inr n ↦ rw (n, i) refl ]

module _ (user_id : ℕ) where
  -- The rows of a user go, and the rows of another user stay.
  filter-removed :
      (other : ℕ) (rows : List SysUserRole)
      → roles_of other (filter (λ r. not (r.user_id == user_id)) rows)
        ≡ (if other == user_id then [] else roles_of other rows)
  filter-removed other [] = ground arith
  filter-removed other (r ∷ rows) = let i = filter-removed other rows in ground (arith, i)

  filter-new :
      (other : ℕ) (ids : List ℕ)
      → roles_of other (map (λ id. record { user_id = user_id; role_id = id }) ids) ≡ (
          if other == user_id
          then map (λ id. record { user_id = user_id; role_id = id }) ids
          else [])
  filter-new other [] = ground arith
  filter-new other (id ∷ ids) = let i = filter-new other ids in ground (arith, i)

ids_of :
    (user_id : ℕ) (ids : List ℕ)
    → map
        (λ (r : SysUserRole). r.role_id)
        (map (λ id. record { user_id = user_id; role_id = id }) ids)
      ≡ ids
ids_of user_id [] = refl
ids_of user_id (id ∷ ids) = rw (ids_of user_id ids) refl

-- After the roles of a user are set, the user has exactly the given roles, each once, whatever roles
-- there were before; and the roles of every other user are as they were.
pub get_role_ids-set_roles :
    (user_id other : ℕ) (role_ids : List ℕ) (rows : List SysUserRole)
    → get_role_ids other (set_roles user_id role_ids rows)
      ≡ (if other == user_id then distinct_ids role_ids else get_role_ids other rows)
unfolding get_role_ids set_roles
get_role_ids-set_roles user_id other role_ids rows =
    ap (map (λ r. r.role_id)) (
      filter-append (λ r. r.user_id == other) (filter (λ r. not (r.user_id == user_id)) rows) added)
    ∙ (elim (Bool-cases (other == user_id)) [
      | inl t ↦
          let a : roles_of other kept ≡ [] = filter-removed user_id other rows ∙ (rw t refl) in
          let b : roles_of other added ≡ added =
            filter-new user_id other (distinct_ids role_ids) ∙ (rw t refl) in
          ap (λ x. map (λ r. r.role_id) (x ++ roles_of other added)) a
          ∙ ap (map (λ r. r.role_id)) b
          ∙ ids_of user_id (distinct_ids role_ids)
          ∙ (rw t refl)
      | inr n ↦
          let a : roles_of other kept ≡ roles_of other rows =
            filter-removed user_id other rows ∙ (rw n refl) in
          let b : roles_of other added ≡ [] =
            filter-new user_id other (distinct_ids role_ids) ∙ (rw n refl) in
          ap (λ x. map (λ r. r.role_id) (x ++ roles_of other added)) a
          ∙ ap (λ x. map (λ r. r.role_id) (roles_of other rows ++ x)) b
          ∙ ap (map (λ r. r.role_id)) (append_nil (roles_of other rows))
          ∙ (rw n refl)
    ])
  where
    added : List SysUserRole
    added = map (λ id. record { user_id = user_id; role_id = id }) (distinct_ids role_ids)

    kept : List SysUserRole
    kept = filter (λ r. not (r.user_id == user_id)) rows

    append_nil : (xs : List SysUserRole) → xs ++ [] ≡ xs
    append_nil [] = refl
    append_nil (x ∷ xs) = rw (append_nil xs) refl
