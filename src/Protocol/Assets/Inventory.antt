-- ===== src/Protocol/Assets/Inventory.antt =====
-- What the table of an asset holds for one key after a report: the reports that concern the key, one
-- after another, over what it held.

use ops_monitor.Protocol.Assets.{upsert, upsert_each}
use ops_monitor.Protocol.Assets.Upsert.{
  IsUpsert, upsert-IsTable, find-cong, find-upsert_same, find-upsert_other,
}
use ops_monitor.Common.Table.Laws.{IsTable}
use ops_monitor.Common.{
  Bool, Option, ℕ, ◌≡◌, List, none, true, false, ◌∷◌, find, some, if◌then◌else◌, Bool-cases, ◌∙◌,
  [], ap, inl, sym, refl, inr,
}
use ops_monitor.Common.Table.{Entity, Table}
use mathlib.Core.Option

-- The reports that concern a key, one after another.
unfoldable pub merged :
    {R V : Type 0}
    → (concerns : R → Bool) → (merge : R → Option V → V) → List R
    → Option V
    → Option V
merged concerns merge [] v = v
merged concerns merge (a ∷ rest) v =
    merged concerns merge rest (if concerns a then some (merge a v) else v)

module _ {A R V : Type 0} ⦃e : Entity A⦄ (p : R → A → Bool) (change : R → A → A) (new : R → ℕ → A)
    (q : A → Bool) (view : A → V) (concerns : R → Bool) (merge : R → Option V → V) where
  -- How the writes of a report look from the query `q`.
  pub record IsReport : Type 0 where
    pub upserts : (a : R) → IsUpsert (p a) (change a) (new a)
    pub same : (a : R) → concerns a ≡ true → (x : A) → p a x ≡ q x
    pub other : (a : R) → concerns a ≡ false → (x : A) → p a x ≡ true → q x ≡ false
    pub view_new : (a : R) (n : ℕ) → view (new a n) ≡ merge a none
    pub view_change : (a : R) (r : A) → view (change a r) ≡ merge a (some (view r))

  abbrev pub write : R → Table A → Table A
  write a t = upsert (p a) (change a) (new a) t

  module _ (u : IsReport) where
    view-found :
        (a : R) (n : ℕ) (o : Option A)
        → view (elim o [ none ↦ new a n | some r ↦ change a r ]) ≡ merge a (Option.map view o)
    view-found a n none = u.view_new a n
    view-found a n (some r) = u.view_change a r

    view-write :
        (a : R) (t : Table A)
        → IsTable t
        → Option.map view (find q (write a t).rows) ≡ (
            if concerns a
            then some (merge a (Option.map view (find q t.rows)))
            else Option.map view (find q t.rows))
    view-write a t w = elim (Bool-cases (concerns a)) [
      | inl c ↦
          let after =
            sym (find-cong q (p a) (u.same a c) (write a t).rows)
            ∙ find-upsert_same (p a) (change a) (new a) (u.upserts a) t in
          ap (Option.map view) after
          ∙ ap some (view-found a t.next_id (find (p a) t.rows))
          ∙ ap (λ o. some (merge a (Option.map view o))) (find-cong q (p a) (u.same a c) t.rows)
          ∙ (rw c refl)
      | inr n ↦
          ap (Option.map view)
            (find-upsert_other (p a) (change a) (new a) (u.upserts a) q t w (u.other a n))
          ∙ (rw n refl)
    ]

    pub view-upsert_each :
        (reports : List R) (t : Table A)
        → IsTable t
        → IsTable (upsert_each write reports t)
          × (Option.map view (find q (upsert_each write reports t).rows)
              ≡ merged concerns merge reports (Option.map view (find q t.rows)))
    unfolding upsert_each merged
    view-upsert_each [] t w = (w, refl)
    view-upsert_each (a ∷ rest) t w =
        let i =
          view-upsert_each rest (write a t)
            (upsert-IsTable (p a) (change a) (new a) (u.upserts a) t w) in
        (i.0, i.1 ∙ ap (merged concerns merge rest) (view-write a t w))

pub merged_none :
    {R V : Type 0} (merge : R → Option V → V) (reports : List R) (v : Option V)
    → merged (λ _. false) merge reports v ≡ v
unfolding merged
merged_none merge [] v = refl
merged_none merge (a ∷ rest) v = merged_none merge rest v
