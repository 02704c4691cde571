-- ===== src/Common/Table/Writes.antt =====
-- What a query finds after a row is written.
use ops_monitor.Common.Table.Laws.{Has-find}
use ops_monitor.Common.Table.{Entity, Table}
use ops_monitor.Common.Table
use ops_monitor.Common.{
  Bool, List, ◌≡◌, find, ◌∷◌, true, some, inl, map, [], Bool-cases, inr, refl, arith,
}

module _ {A : Type 0} ⦃e : Entity A⦄ where
  -- The query that found the row finds what is written over it.
  pub find-replace_same :
      (q : A → Bool) (x : A) (xs : List A) {r : A}
      → find q xs ≡ some r
      → e.id_of x ≡ e.id_of r
      → q x ≡ true
      → find q (map (Table.replace x) xs) ≡ some x
  find-replace_same q x [] h i t = cc
  find-replace_same q x (y ∷ xs) h i t = elim (Bool-cases (Table.has_id (e.id_of x) y)) [
    | inl s ↦ rw (s, t) refl
    | inr n ↦ elim (Bool-cases (q y)) [
      | inl u ↦ absurd (ground arith)
      | inr f ↦ rw (n, f) (find-replace_same q x xs (ground arith) i t)
    ]
  ]

-- A row that a query finds, written over, is found by it.
module _ {A : Type 0} ⦃e : Entity A⦄ (p : A → Bool) (x : A) (t : Table A) {r : A} where
  pub get_by-save :
      Table.get_by p t ≡ some r
      → e.id_of x ≡ e.id_of r
      → (Table.visible p r ≡ true → Table.visible p x ≡ true)
      → Table.get_by p (Table.save x t) ≡ some x
  unfolding Table.get_by Table.save
  get_by-save f i k =
      find-replace_same (Table.visible p) x t.rows f i (k (Has-find (Table.visible p) t.rows f).1)
