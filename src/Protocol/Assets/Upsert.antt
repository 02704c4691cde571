-- ===== src/Protocol/Assets/Upsert.antt =====
-- What a query finds after rows are upserted, or deleted one by one.
use ops_monitor.Protocol.Assets.{upsert, upsert_each}
use ops_monitor.Common.Table.Laws.{
  Has, IsTable, create-IsTable, save-IsTable, Has-find, All-same_id,
}
use ops_monitor.Common.Table.{Entity, Table}
use ops_monitor.Common.{
  Bool, List, All, ◌≡◌, find, false, ◌∷◌, true, some, none, ◌++◌, filter, inl, map, [], Bool-cases,
  inr, refl, sym, arith, ℕ, Option-cases, All-map, ◌∙◌, subst, ap,
}
use ops_monitor.Common.Table
use ops_monitor.Common.Table.Writes.{find-replace_same}

module _ {A : Type 0} (q : A → Bool) where
  pub find-none : (xs : List A) → All (λ x. q x ≡ false) xs → find q xs ≡ none
  find-none [] h = refl
  find-none (x ∷ xs) h = let i = find-none xs h.1 in rw (h.0) i

  pub find-cong : (p : A → Bool) → ((x : A) → p x ≡ q x) → (xs : List A) → find p xs ≡ find q xs
  find-cong p h [] = refl
  find-cong p h (x ∷ xs) = rw (h x, find-cong p h xs) refl

  find-append_one : (xs : List A) (x : A) → q x ≡ false → find q (xs ++ x ∷ []) ≡ find q xs
  find-append_one [] x h = rw h refl
  find-append_one (y ∷ xs) x h = rw (find-append_one xs x h) refl

  find-append_new :
      (xs : List A) (x : A) → q x ≡ true → find q xs ≡ none → find q (xs ++ x ∷ []) ≡ some x
  find-append_new [] x h n = rw h refl
  find-append_new (y ∷ xs) x h n = elim (Bool-cases (q y)) [
    | inl t ↦ absurd (let e : some y ≡ none = (rw (sym n) (rw t refl)) in cc)
    | inr f ↦ let m : find q xs ≡ none = ground arith in rw (f, find-append_new xs x h m) refl
  ]

  -- A filter that keeps what the query asks for.
  pub find-filter :
      (g : A → Bool) (xs : List A)
      → All (λ x. q x ≡ true → g x ≡ true) xs
      → find q (filter g xs) ≡ find q xs
  find-filter g [] h = refl
  find-filter g (x ∷ xs) h =
      let i = find-filter g xs h.1 in
      elim (Bool-cases (q x)) [
        | inl t ↦ rw (h.0 t, t) refl
        | inr f ↦ elim (Bool-cases (g x)) [ inl k ↦ rw (k, f) i | inr k ↦ rw (k, f) i ]
      ]

pub All-from_Has :
    {A : Type 0} (P : A → Type 0) (xs : List A) → ((x : A) → Has x xs → P x) → All P xs
All-from_Has P [] f = tt
All-from_Has P (x ∷ xs) f = (f x (inl refl), All-from_Has P xs (λ y h. f y (inr h)))

module _ {A : Type 0} ⦃e : Entity A⦄ where
  find-replace_other :
      (q : A → Bool) (x : A) (xs : List A)
      → q x ≡ false
      → All (λ r. e.id_of r ≡ e.id_of x → q r ≡ false) xs
      → find q (map (Table.replace x) xs) ≡ find q xs
  find-replace_other q x [] f h = refl
  find-replace_other q x (y ∷ xs) f h =
      let i = find-replace_other q x xs f h.1 in
      elim (Bool-cases (Table.has_id (e.id_of x) y)) [
        | inl s ↦ let g : q y ≡ false = h.0 (ground arith) in rw (s, f, g) i
        | inr n ↦ rw (n, i) refl
      ]

-- A report's query `p`, its change of a row, and its new row, with what they keep.
pub record IsUpsert {A : Type 0} ⦃e : Entity A⦄ (p : A → Bool) (change : A → A) (new : ℕ → A)
    : Type 0 where
  pub change_id : (r : A) → e.id_of (change r) ≡ e.id_of r
  pub new_id : (n : ℕ) → e.id_of (new n) ≡ n
  pub change_found : (r : A) → p r ≡ true → p (change r) ≡ true
  pub new_found : (n : ℕ) → p (new n) ≡ true

module _ {A : Type 0} ⦃e : Entity A⦄ (p : A → Bool) (change : A → A) (new : ℕ → A)
    (u : IsUpsert p change new) where
  pub upsert-IsTable : (t : Table A) → IsTable t → IsTable (upsert p change new t)
  upsert-IsTable t w =
      elim (find p t.rows)
        as (λ o.
          IsTable (elim o [ none ↦ (Table.create new t).1 | some r ↦ Table.save (change r) t ])) [
            | none ↦ create-IsTable new t (u.new_id t.next_id) w
            | some r ↦ save-IsTable (change r) t w
          ]

  missing : (t : Table A) → find p t.rows ≡ none → upsert p change new t ≡ (Table.create new t).1
  missing t n =
      subst
        (λ o.
          elim o [ none ↦ (Table.create new t).1 | some r ↦ Table.save (change r) t ]
          ≡ (Table.create new t).1)
        (sym n) refl

  pub found :
      (t : Table A) (r : A)
      → find p t.rows ≡ some r
      → upsert p change new t ≡ Table.save (change r) t
  found t r f =
      subst
        (λ o.
          elim o [ none ↦ (Table.create new t).1 | some r' ↦ Table.save (change r') t ]
          ≡ Table.save (change r) t)
        (sym f) refl

  -- The row that its own query finds.
  pub find-upsert_same :
      (t : Table A)
      → find p (upsert p change new t).rows
        ≡ some (elim (find p t.rows) [ none ↦ new t.next_id | some r ↦ change r ])
  unfolding Table.create Table.save
  find-upsert_same t = elim (Option-cases (find p t.rows)) [
    | inl n ↦
        ap (λ (t' : Table A). find p t'.rows) (missing t n)
        ∙ find-append_new p t.rows (new t.next_id) (u.new_found t.next_id) n
        ∙ subst
            (λ o. some (new t.next_id) ≡ some (elim o [ none ↦ new t.next_id | some r ↦ change r ]))
            (sym n) refl
    | inr f ↦
        let h = Has-find p t.rows f.1 in
        ap (λ (t' : Table A). find p t'.rows) (found t f.0 f.1)
        ∙ find-replace_same p (change f.0) t.rows f.1 (u.change_id f.0) (u.change_found f.0 h.1)
        ∙ subst
            (λ o. some (change f.0) ≡ some (elim o [ none ↦ new t.next_id | some r ↦ change r ]))
            (sym f.1) refl
  ]

  -- A query for other rows finds what it found.
  pub find-upsert_other :
      (q : A → Bool) (t : Table A)
      → IsTable t
      → ((x : A) → p x ≡ true → q x ≡ false)
      → find q (upsert p change new t).rows ≡ find q t.rows
  unfolding Table.create Table.save
  find-upsert_other q t w d = elim (Option-cases (find p t.rows)) [
    | inl n ↦
        ap (λ (t' : Table A). find q t'.rows) (missing t n)
        ∙ find-append_one q t.rows (new t.next_id) (d _ (u.new_found t.next_id))
    | inr f ↦
        let h = Has-find p t.rows f.1 in
        ap (λ (t' : Table A). find q t'.rows) (found t f.0 f.1)
        ∙ find-replace_other q (change f.0) t.rows (d _ (u.change_found f.0 h.1)) (
            All-map (λ r. e.id_of r ≡ e.id_of f.0 → q r ≡ false)
              (λ r. e.id_of r ≡ e.id_of (change f.0) → q r ≡ false)
              (λ r k i. k (i ∙ u.change_id f.0)) t.rows
              (All-same_id (λ r. q r ≡ false) f.0 t.rows w.distinct h.0 (d f.0 h.1)))
  ]

-- Reports written one after another.
module _ {A R : Type 0} ⦃e : Entity A⦄ (p : R → A → Bool) (change : R → A → A) (new : R → ℕ → A)
    (u : (a : R) → IsUpsert (p a) (change a) (new a)) where
  pub upsert_each-IsTable :
      (reports : List R) (t : Table A)
      → IsTable t
      → IsTable (upsert_each (λ a. upsert (p a) (change a) (new a)) reports t)
  unfolding upsert_each
  upsert_each-IsTable [] t w = w
  upsert_each-IsTable (a ∷ rest) t w =
      upsert_each-IsTable rest _ (upsert-IsTable (p a) (change a) (new a) (u a) t w)
