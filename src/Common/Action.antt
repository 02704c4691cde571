-- ===== src/Common/Action.antt =====
-- Service methods: a session's state, and exceptions. A method that raises commits nothing: the
-- session is closed and its transaction rolled back, so an error carries no state.
pub mod Post
pub mod Counts
use Prim.Native.Nat.{ℕ, ◌+◌}
use mathlib.Core.Bool.{Bool, true, false}
use mathlib.Core.List.{List, [], ◌∷◌}
use mathlib.Core.Option.{Option, none, some}
use ops_monitor.Exceptions.{Error}

pub data Result (A : Type 0) : Type 0 where
  ok : A → Result A
  err : Error → Result A

abbrev pub Action : Type 0 → Type 0 → Type 0
Action S A = S → Result (A × S)

module _ {S A : Type 0} where
  -- What a request leaves in the database.
  abbrev pub settle : S → Result (A × S) → S
  settle s (ok (_, s')) = s'
  settle s (err _) = s

  abbrev pub pure : A → Action S A
  pure a s = ok (a, s)

  abbrev pub raise : Error → Action S A
  raise e s = err e

  abbrev pub gets : (S → A) → Action S A
  gets f s = ok (f s, s)

  abbrev pub or_raise : Option A → Error → Action S A
  or_raise none e = raise e
  or_raise (some a) e = pure a

module _ {S A B : Type 0} where
  abbrev pub continue : Result (A × S) → (A → Action S B) → Result (B × S)
  continue (ok (a, s)) f = f a s
  continue (err e) f = err e

  infixl 5 ◌>>=◌ ◌>>◌
  abbrev pub ◌>>=◌ : Action S A → (A → Action S B) → Action S B
  ◌>>=◌ m f s = continue (m s) f

  abbrev pub ◌>>◌ : Action S A → Action S B → Action S B
  m >> n = m >>= λ _. n

abbrev pub modify : {S : Type 0} → (S → S) → Action S (Unit {0})
modify f s = ok (tt, f s)

-- `if c: raise e`
abbrev pub raise_if : {S : Type 0} → Bool → Error → Action S (Unit {0})
raise_if true e s = err e
raise_if false e s = ok (tt, s)

-- `for x in xs: body(x)`
module _ {S A : Type 0} where
  unfoldable pub for_each : List A → (A → Action S (Unit {0})) → Action S (Unit {0})
  for_each [] body = pure tt
  for_each (x ∷ xs) body = body x >>= λ _. for_each xs body

  -- A loop whose rounds each add a number to a counter.
  unfoldable pub sum_each : List A → (A → Action S ℕ) → Action S ℕ
  sum_each [] body = pure 0
  sum_each (x ∷ xs) body = body x >>= λ n. sum_each xs body >>= λ m. pure (n + m)

module _ {S A B : Type 0} where
  -- A loop whose rounds each append to a result.
  unfoldable pub map_each : List A → (A → Action S B) → Action S (List B)
  map_each [] body = pure []
  map_each (x ∷ xs) body = body x >>= λ b. map_each xs body >>= λ bs. pure (b ∷ bs)
