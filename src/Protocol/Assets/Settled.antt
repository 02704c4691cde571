-- ===== src/Protocol/Assets/Settled.antt =====
-- A report whose keys are all in the table, and a table with nothing to delete: no row comes or goes.
use ops_monitor.Common.{
  List, Bool, All, not, ℕ, ◌≡◌, ◌||◌, map, is_some, true, find, ◌∷◌, filter, some, Bool-cases, ◌∙◌,
  All-filter_of, All-map, Option-cases, [], arith, inl, refl, ==→eq, false, inr, sym, subst, ap,
  Option, any, none,
}
use ops_monitor.Common.Table
use ops_monitor.Common.Table.{Entity, Table}
use ops_monitor.Common.Table.Laws.{Has-find, All-same_id, IsTable, save-IsTable}
use ops_monitor.Protocol.Assets.{upsert, upsert_each, delete_each}
use ops_monitor.Protocol.Assets.Upsert.{IsUpsert, found, All-from_Has}
use ops_monitor.Protocol.Assets.Deletes.{delete_missing-gone}
use ops_monitor.Protocol.Assets.Inventory.{merged}
use ops_monitor.Common.Table.Elements.{none-Has}
use mathlib.Core.Option

module _ {A : Type 0} (g : A → A) where
  map_same :
      {K : Type 0} (f : A → K) (xs : List A)
      → All (λ y. f (g y) ≡ f y) xs
      → map f (map g xs) ≡ map f xs
  map_same f [] h = refl
  map_same f (x ∷ xs) h = rw (h.0, map_same f xs h.1) refl

  find_same :
      (q : A → Bool) (xs : List A)
      → All (λ y. q (g y) ≡ q y) xs
      → is_some (find q (map g xs)) ≡ is_some (find q xs)
  find_same q [] h = refl
  find_same q (x ∷ xs) h =
      let i = find_same q xs h.1 in
      elim (Bool-cases (q x)) [ inl t ↦ rw (h.0, t) refl | inr n ↦ rw (h.0, n) i ]

  keeps_each :
      (q : A → Bool) (xs : List A)
      → All (λ y. q (g y) ≡ q y) xs
      → All (λ y. q y ≡ true) xs
      → All (λ y. q y ≡ true) (map g xs)
  keeps_each q [] h k = tt
  keeps_each q (x ∷ xs) h k = (h.0 ∙ k.0, keeps_each q xs h.1 k.1)

module _ {A : Type 0} ⦃e : Entity A⦄ where
  delete_each-none :
      (keep : A → Bool) (xs : List A) (t : Table A)
      → All (λ x. keep x ≡ true) xs
      → delete_each keep xs t ≡ t
  unfolding delete_each
  delete_each-none keep [] t h = refl
  delete_each-none keep (x ∷ xs) t h = rw (h.0) (delete_each-none keep xs t h.1)

  -- A row that is not one of the selected ones that are to go.
  abbrev pub stays : (own keep : A → Bool) → A → Bool
  stays own keep x = not (own x) || keep x

  delete_missing-none :
      (own keep : A → Bool) (t : Table A)
      → All (λ x. stays own keep x ≡ true) t.rows
      → delete_each keep (Table.list_all own t) t ≡ t
  unfolding Table.list_all
  delete_missing-none own keep t h = delete_each-none keep (filter (Table.visible own) t.rows) t (
      All-filter_of (λ x. stays own keep x ≡ true) (λ x. keep x ≡ true) (Table.visible own)
        (λ x k v. ground arith) t.rows h)

module _ {A R K : Type 0} ⦃e : Entity A⦄ (p : R → A → Bool) (change : R → A → A) (new : R → ℕ → A)
    (u : (a : R) → IsUpsert (p a) (change a) (new a))
    (p_kept : (b a : R) (x : A) → p b (change a x) ≡ p b x) (f : A → K)
    (f_kept : (a : R) (x : A) → f (change a x) ≡ f x) (own keep : A → Bool)
    (kept : (a : R) (x : A) → stays own keep (change a x) ≡ stays own keep x) where
  -- What a change keeps of its row, the write of it keeps of every row.
  unchanged :
      {L : Type 0} (g : A → L)
      → ((a : R) (x : A) → g (change a x) ≡ g x)
      → (a : R) (t : Table A) → IsTable t
      → (r : A) → find (p a) t.rows ≡ some r
      → All (λ y. g (Table.replace (change a r) y) ≡ g y) t.rows
  unchanged g k a t w r q =
      All-map (λ y. e.id_of y ≡ e.id_of r → g y ≡ g r) (λ y. g (Table.replace (change a r) y) ≡ g y)
        (λ y h. elim (Bool-cases (Table.has_id (e.id_of (change a r)) y)) [
          | inl s ↦
              let i : e.id_of y ≡ e.id_of r =
                ==→eq (e.id_of y) (e.id_of (change a r)) s ∙ (u a).change_id r in
              rw s (k a r ∙ sym (h i))
          | inr n ↦ rw n refl
        ])
        t.rows (All-same_id (λ z. g z ≡ g r) r t.rows w.distinct (Has-find (p a) t.rows q).0 refl)

  abbrev write : R → Table A → Table A
  write a = upsert (p a) (change a) (new a)

  abbrev Known : List R → Table A → Type 0
  Known reports t = All (λ a. is_some (find (p a) t.rows) ≡ true) reports

  abbrev Kept : List R → Table A → Table A → Type 0
  Kept reports t t' =
      (map f (upsert_each write reports t').rows ≡ map f t.rows)
      × All (λ x. stays own keep x ≡ true) (upsert_each write reports t').rows

  upserts_again :
      (reports : List R) (t : Table A)
      → IsTable t
      → Known reports t
      → All (λ x. stays own keep x ≡ true) t.rows
      → Kept reports t t
  unfolding upsert_each Table.save
  upserts_again [] t w h k = (refl, k)
  upserts_again (a ∷ rest) t w h k = elim (Option-cases (find (p a) t.rows)) [
    | inl n ↦
        absurd
          (let z : is_some (find (p a) t.rows) ≡ false = rw n refl in let y = h.0 in ground arith)
    | inr r ↦
        let x = change a r.0 in
        let i =
          upserts_again rest (Table.save x t) (save-IsTable x t w)
            (All-map (λ b. is_some (find (p b) t.rows) ≡ true)
              (λ b. is_some (find (p b) (Table.save x t).rows) ≡ true)
              (λ b y.
                find_same (Table.replace x) (p b) t.rows
                  (unchanged (p b) (λ c z. p_kept b c z) a t w r.0 r.1)
                ∙ y)
              rest h.1)
            (keeps_each (Table.replace x) (stays own keep) t.rows
              (unchanged (stays own keep) kept a t w r.0 r.1) k) in
        subst (Kept rest t) (sym (found (p a) (change a) (new a) (u a) t r.0 r.1))
          (i.0 ∙ map_same (Table.replace x) f t.rows (unchanged f f_kept a t w r.0 r.1), i.1)
  ]

  -- The report once more, with the deletion that follows it.
  pub sync_again :
      (reports : List R) (t : Table A)
      → IsTable t
      → Known reports t
      → All (λ x. stays own keep x ≡ true) t.rows
      → map f
          (delete_each keep
            (Table.list_all own (upsert_each write reports t))
            (upsert_each write reports t)).rows
        ≡ map f t.rows
  sync_again reports t w h k =
      let i = upserts_again reports t w h k in
      ap (λ (x : Table A). map f x.rows)
        (delete_missing-none own keep (upsert_each write reports t) i.1)
      ∙ i.0

-- After a report with its deletion no row is left that was to go.
module _ {A : Type 0} ⦃e : Entity A⦄ (own keep : A → Bool) where
  pub delete_missing-stays :
      (t : Table A)
      → ((x : A) → e.is_deleted x ≡ false)
      → All (λ x. stays own keep x ≡ true) (delete_each keep (Table.list_all own t) t).rows
  delete_missing-stays t d =
      let after = delete_each keep (Table.list_all own t) t in
      All-from_Has (λ x. stays own keep x ≡ true) after.rows
        (λ x h.
          let n =
            none-Has (λ y. not (stays own keep y)) x after.rows
              (delete_missing-gone keep own (λ y. not (stays own keep y)) t d
                (λ y q. (ground arith, ground arith)))
              h in
          ground arith)

module _ {R V : Type 0} (concerns : R → Bool) (merge : R → Option V → V) where
  some_after : (reports : List R) (v : V) → is_some (merged concerns merge reports (some v)) ≡ true
  unfolding merged
  some_after [] v = refl
  some_after (a ∷ rest) v = elim (Bool-cases (concerns a)) [
    | inl t ↦ rw t (some_after rest (merge a (some v)))
    | inr n ↦ rw n (some_after rest v)
  ]

  -- What a report concerns is in the inventory after it.
  pub merged-any :
      (reports : List R) (v : Option V)
      → any concerns reports ≡ true
      → is_some (merged concerns merge reports v) ≡ true
  unfolding merged
  merged-any [] v h = cc
  merged-any (a ∷ rest) v h = elim (Bool-cases (concerns a)) [
    | inl t ↦ rw t (some_after rest (merge a v))
    | inr n ↦ let k : any concerns rest ≡ true = ground arith in rw n (merged-any rest v k)
  ]

pub is_some-map : {A B : Type 0} (f : A → B) (o : Option A) → is_some (Option.map f o) ≡ is_some o
is_some-map f none = refl
is_some-map f (some a) = refl
