-- ===== src/Protocol/Assets/Deletes.antt =====
-- What a query finds after rows are deleted one by one.
use ops_monitor.Common.Table.Elements.{of_Has-filter, Has-any, Has-filter}
use ops_monitor.Protocol.Assets.Upsert.{All-from_Has, find-none, find-filter}
use ops_monitor.Common.Table.Laws.{Distinct, IsTable, All-same_id}
use ops_monitor.Protocol.Assets.{delete_each}
use ops_monitor.Common.{
  Bool, List, All, ◌≡◌, false, true, find, filter, ◌∷◌, ◌≢◌, any, none, if◌then◌else◌, not,
  All-filter, Bool-cases, ◌&&◌, All-map, ◌<◌, [], ◌==◌, inl, subst, arith, ==_refl, inr, sym, ◌∙◌,
  All-filter_of, refl,
}
use ops_monitor.Common.Table.{Entity, Table}
use ops_monitor.Common.Table

module _ {A : Type 0} ⦃e : Entity A⦄ (keep : A → Bool) (q : A → Bool) where
  -- Where no row that the query asks for is deleted, it finds what it found.
  pub delete_each-kept :
      (xs : List A) (t : Table A)
      → All (λ x. keep x ≡ false → All (λ r. q r ≡ true → e.id_of r ≢ e.id_of x) t.rows) xs
      → find q (delete_each keep xs t).rows ≡ find q t.rows
  unfolding delete_each Table.delete
  delete_each-kept [] t h = refl
  delete_each-kept (x ∷ xs) t h = elim (Bool-cases (keep x)) [
    | inl k ↦ subst after (sym k) (delete_each-kept xs t h.1)
    | inr n ↦ subst after (sym n) (
        delete_each-kept xs (Table.delete x t)
          (All-map _ _ (λ y hy m. All-filter _ others t.rows (hy m)) xs h.1)
        ∙ find-filter q others t.rows (
            All-map (λ r. q r ≡ true → e.id_of r ≢ e.id_of x) (λ r. q r ≡ true → others r ≡ true)
              (λ r hr y. let z = hr y in ground arith) t.rows (h.0 n)))
  ]
    where
      others : A → Bool
      others r = not (Table.has_id (e.id_of x) r)

      after : Bool → Type 0
      after b =
          find q (delete_each keep xs (if b then t else Table.delete x t)).rows ≡ find q t.rows

  abbrev pub Dropped : A → List A → Type 0
  Dropped r xs = q r ≡ true → any (λ x. not (keep x) && (e.id_of x == e.id_of r)) xs ≡ true

  -- Where every row that the query asks for is deleted, it finds nothing.
  pub delete_each-gone :
      (xs : List A) (t : Table A)
      → All (λ r. Dropped r xs) t.rows
      → find q (delete_each keep xs t).rows ≡ none
  unfolding delete_each Table.delete
  delete_each-gone [] t h = find-none q t.rows (
      All-map (λ r. Dropped r []) (λ r. q r ≡ false)
        (λ r f. elim (Bool-cases (q r)) [ inl y ↦ absurd (let z = f y in cc) | inr n ↦ n ]) t.rows
        h)
  delete_each-gone (x ∷ xs) t h = elim (Bool-cases (keep x)) [
    | inl k ↦ subst after (sym k) (
        delete_each-gone xs t (
          All-map (λ r. Dropped r (x ∷ xs)) (λ r. Dropped r xs)
            (λ r f y. let z = f y in ground arith) t.rows h))
    | inr n ↦ subst after (sym n) (
        delete_each-gone xs (Table.delete x t) (
          All-filter_of (λ r. Dropped r (x ∷ xs)) (λ r. Dropped r xs)
            (λ r. not (Table.has_id (e.id_of x) r)) (λ r f m y. let z = f y in ground arith) t.rows
            h))
  ]
    where
      after : Bool → Type 0
      after b = find q (delete_each keep xs (if b then t else Table.delete x t)).rows ≡ none

module _ {A : Type 0} ⦃e : Entity A⦄ where
  Distinct-filter : (g : A → Bool) (xs : List A) → Distinct xs → Distinct (filter g xs)
  Distinct-filter g [] d = tt
  Distinct-filter g (x ∷ xs) d =
      elim (g x) as (λ b. Distinct (if b then x ∷ filter g xs else filter g xs)) [
        | true ↦ (All-filter (λ r. e.id_of r ≢ e.id_of x) g xs d.0, Distinct-filter g xs d.1)
        | false ↦ Distinct-filter g xs d.1
      ]

  pub delete_each-IsTable :
      (keep : A → Bool) (xs : List A) (t : Table A) → IsTable t → IsTable (delete_each keep xs t)
  unfolding delete_each Table.delete
  delete_each-IsTable keep [] t w = w
  delete_each-IsTable keep (x ∷ xs) t w =
      delete_each-IsTable keep xs _
        (elim (keep x) as (λ b. IsTable (if b then t else Table.delete x t)) [
          | true ↦ w
          | false ↦ record {
            below =
                All-filter (λ r. e.id_of r < t.next_id) (λ r. not (Table.has_id (e.id_of x) r))
                  t.rows w.below;
            distinct = Distinct-filter (λ r. not (Table.has_id (e.id_of x) r)) t.rows w.distinct;
          }
        ])

-- The rows of a server that are not kept are deleted, and no other.
module _ {A : Type 0} ⦃e : Entity A⦄ (keep sel q : A → Bool) (t : Table A) where
  pub delete_missing-kept :
      IsTable t
      → ((x : A) → q x ≡ true → sel x ≡ true → keep x ≡ true)
      → find q (delete_each keep (Table.list_all sel t) t).rows ≡ find q t.rows
  unfolding Table.list_all
  delete_missing-kept w k = delete_each-kept keep q (filter (Table.visible sel) t.rows) t (
      All-from_Has _ (filter (Table.visible sel) t.rows) (λ x h f.
        let g = of_Has-filter (Table.visible sel) x t.rows h in
        let n : q x ≡ false = elim (Bool-cases (q x)) [
          | inl y ↦ absurd (let z : keep x ≡ true = k x y (ground arith) in cc)
          | inr n ↦ n
        ] in
        All-map (λ r. e.id_of r ≡ e.id_of x → q r ≡ false) (λ r. q r ≡ true → e.id_of r ≢ e.id_of x)
          (λ r m y i. let z = m i in cc) t.rows
          (All-same_id (λ r. q r ≡ false) x t.rows w.distinct g.0 n)))

  pub delete_missing-gone :
      ((x : A) → e.is_deleted x ≡ false)
      → ((x : A) → q x ≡ true → (sel x ≡ true) × (keep x ≡ false))
      → find q (delete_each keep (Table.list_all sel t) t).rows ≡ none
  unfolding Table.list_all
  delete_missing-gone d k = delete_each-gone keep q (filter (Table.visible sel) t.rows) t (
      All-from_Has _ t.rows (λ r h y.
        let z = k r y in
        let v : Table.visible sel r ≡ true = rw (z.0, d r) refl in
        let m : (not (keep r) && (e.id_of r == e.id_of r)) ≡ true =
          rw (z.1, ==_refl (e.id_of r)) refl in
        Has-any (λ x. not (keep x) && (e.id_of x == e.id_of r)) r
          (filter (Table.visible sel) t.rows) (Has-filter (Table.visible sel) r t.rows h v) m))
