-- ===== src/Common/Table.antt =====
-- backend/app/repositories/base.py: `BaseRepository` over a table with an auto-increment key. Rows
-- stand in the order of their keys, which is the order that an unordered query returns.
pub mod Laws
pub mod Pages
pub mod Elements
pub mod Writes
use Prim.Native.Nat.{ℕ, ◌+◌, ◌-◌, ◌*◌}
use mathlib.Core.Bool.{Bool, not, ◌&&◌}
use mathlib.Core.List.{List, [], ◌∷◌, ◌++◌, map}
use mathlib.Core.Option.{Option}
use ops_monitor.Common.Tests.{◌==◌, if◌then◌else◌}
use ops_monitor.Common.Lists.{length, filter, find, take, drop}

-- A model class: its primary key, and whether `deleted_at` is set (never, without that column).
pub record Entity (A : Type 0) : Type 0 where
  pub id_of : A → ℕ
  pub is_deleted : A → Bool

pub record Table (A : Type 0) : Type 0 where
  pub rows : List A
  pub next_id : ℕ

abbrev pub empty : {A : Type 0} → Table A
empty = record { rows = []; next_id = 1 }

module _ {A : Type 0} ⦃e : Entity A⦄ where
  -- `_apply_soft_delete` on top of the filters.
  abbrev pub visible : (A → Bool) → A → Bool
  visible p r = p r && not (e.is_deleted r)

  abbrev pub has_id : ℕ → A → Bool
  has_id k r = e.id_of r == k

  unfoldable pub get_by : (A → Bool) → Table A → Option A
  get_by p t = find (visible p) t.rows

  unfoldable pub get : ℕ → Table A → Option A
  unfolding get_by
  get k t = get_by (has_id k) t

  unfoldable pub list_all : (A → Bool) → Table A → List A
  list_all p t = filter (visible p) t.rows

  unfoldable pub count : (A → Bool) → Table A → ℕ
  unfolding list_all
  count p t = length (list_all p t)

  -- `list`: the total and one page, where `order` is what ORDER BY does.
  unfoldable pub list_page : (List A → List A) → ℕ → ℕ → (A → Bool) → Table A → ℕ × List A
  unfolding list_all
  list_page order page page_size p t =
      let items = list_all p t in
      (length items, take page_size (drop ((page - 1) * page_size) (order items)))

  -- `create`: an instance has no key until it is flushed.
  unfoldable pub create : (ℕ → A) → Table A → A × Table A
  create instance_of t =
      let r = instance_of t.next_id in
      (r, record t { rows = t.rows ++ r ∷ []; next_id = t.next_id + 1 })

  -- `r`, or the instance that has its key.
  abbrev pub replace : A → A → A
  replace x r = if has_id (e.id_of x) r then x else r

  -- A flush of a changed instance: the row with its key is the instance.
  unfoldable pub save : A → Table A → Table A
  save x t = record t { rows = map (replace x) t.rows }

  unfoldable pub delete : A → Table A → Table A
  delete x t = record t { rows = filter (λ r. not (has_id (e.id_of x) r)) t.rows }

-- `DELETE … WHERE p`
unfoldable pub delete_where : {A : Type 0} → (A → Bool) → Table A → Table A
delete_where p t = record t { rows = filter (λ r. not (p r)) t.rows }
