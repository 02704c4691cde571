-- ===== src/Users/Lookups.antt =====
-- What the lookups of names and emails by `create_user` of backend/app/services/user_service.py say
-- of the users, as long as none is deleted.

use ops_monitor.Common.{
  Bool, String, ◌≢◌, ◌≡◌, List, true, some, Option, ◌∷◌, ℕ, none, [], refl, false, is_some, ◌==◌,
  inl, Bool-cases, inr, subst, arith, str_eq, eq_refl, Option-cases, dedup, ap, not, ◌∙◌, eq_iff,
  ◌&&◌, sym,
}
use ops_monitor.Common.Table
use ops_monitor.Common.Table.{Table}
use ops_monitor.Common.Table.Elements.{none-Has, any-Has, of_Has-filter}
use ops_monitor.Common.Table.Laws.{Has, Has-find}
use ops_monitor.Users.Model.{user_entity, role_entity, SysUser, UserCreate}
use ops_monitor.Users.Repository.{
  get_by_username, get_by_email, has_email, same_email, distinct_ids, breaks_key,
}
use ops_monitor.Users.Service.{email_taken}
use ops_monitor.Users.Session.{Session}

pub of_has_email : (e : String) (u : SysUser) → has_email e u ≡ true → u.email ≡ some e
of_has_email e u h = go u.email h
  where
    go :
        (o : Option String)
        → (elim o as (λ _. Bool) [ none ↦ false | some e' ↦ str_eq e' e ]) ≡ true
        → o ≡ some e
    go none q = cc
    go (some e') q = ap some ((eq_iff e' e).0 q)

has_email-some : (e : String) (u : SysUser) → u.email ≡ some e → has_email e u ≡ true
has_email-some e u q = rw q (eq_refl e)

of_same_email :
    (u v : SysUser) → same_email u v ≡ true → (e : String) × (u.email ≡ some e) × (v.email ≡ some e)
of_same_email u v h = elim (Option-cases u.email) [
  | inl n ↦ absurd (
      let z : false ≡ true =
        subst (λ o. (elim o as (λ _. Bool) [ none ↦ false | some e ↦ has_email e v ]) ≡ true) n h in
      cc)
  | inr e ↦
      let k : has_email e.0 v ≡ true =
        subst (λ o. (elim o as (λ _. Bool) [ none ↦ false | some e ↦ has_email e v ]) ≡ true) e.1
          h in
      (e.0, e.1, of_has_email e.0 v k)
]

pub Has-dedup : (x : ℕ) (xs : List ℕ) → Has x (distinct_ids xs) → Has x xs
unfolding dedup
Has-dedup x [] h = absurd h
Has-dedup x (y ∷ xs) (inl q) = inl q
Has-dedup x (y ∷ xs) (inr h) =
    inr (Has-dedup x xs (of_Has-filter (λ z. not (y == z)) x (distinct_ids xs) h).0)

module _ (body : UserCreate) (s : Session) where
  abbrev pub NoName : Type 0
  NoName = (u : SysUser) → Has u s.users.rows → u.username ≢ body.username

  abbrev pub NoEmail : Type 0
  NoEmail =
      (u : SysUser) (email : String)
      → Has u s.users.rows
      → body.email ≡ some email
      → u.email ≢ some email

  -- Every row is visible.
  module _ (live : (u : SysUser) → Has u s.users.rows → u.deleted_at ≡ none) where
    seen :
        (p : SysUser → Bool) (u : SysUser)
        → Table.get_by p s.users ≡ none
        → Has u s.users.rows
        → p u ≡ false
    unfolding Table.get_by
    seen p u n h =
        let k : Table.visible p u ≡ false = none-Has (Table.visible p) u s.users.rows n h in
        let d : is_some u.deleted_at ≡ false = rw (live u h) refl in ground arith

    pub found :
        (p : SysUser → Bool) (u : SysUser)
        → Table.get_by p s.users ≡ some u
        → Has u s.users.rows × (p u ≡ true)
    unfolding Table.get_by
    found p u q = let r = Has-find (Table.visible p) s.users.rows q in (r.0, ground (arith, r.1))

    pub no_name : get_by_username body.username s.users ≡ none → NoName
    unfolding get_by_username
    no_name n u h q =
        let f : str_eq u.username body.username ≡ false =
          seen (λ v. str_eq v.username body.username) u n h in
        let t : str_eq u.username body.username ≡ true = rw q (eq_refl body.username) in cc

    pub no_email : body.email ≢ some "" → email_taken body.email s ≡ false → NoEmail
    unfolding get_by_email
    no_email ne f u email h b q = elim (Bool-cases (str_eq email "")) [
      | inl t ↦ ne (b ∙ ap some ((eq_iff email "").0 t))
      | inr n ↦
          let k : (not (str_eq email "") && is_some (get_by_email email s.users)) ≡ false =
            subst (λ o. email_taken o s ≡ false) b f in
          elim (Option-cases (get_by_email email s.users)) [
            | inl z ↦
                let g : has_email email u ≡ false = seen (has_email email) u z h in
                let t = has_email-some email u q in cc
            | inr z ↦
                let w : is_some (get_by_email email s.users) ≡ true = rw (z.1) refl in
                absurd (ground arith)
          ]
    ]

    pub no_clash :
        NoName
        → NoEmail
        → (x : SysUser) → x.username ≡ body.username
        → x.email ≡ body.email
        → breaks_key x s.users ≡ false
    no_clash name email x n e = elim (Bool-cases (breaks_key x s.users)) [
      | inr f ↦ f
      | inl t ↦
          let v = any-Has _ s.users.rows t in
          elim (Bool-cases (str_eq v.0.username x.username)) [
            | inl q ↦ absurd (name v.0 v.1.0 ((eq_iff v.0.username x.username).0 q ∙ n))
            | inr q ↦
                let k : same_email x v.0 ≡ true = ground (arith, v.1.1) in
                let w = of_same_email x v.0 k in absurd (email v.0 w.0 v.1.0 (sym e ∙ w.1) w.2)
          ]
    ]
