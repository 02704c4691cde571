-- ===== src/Common/Lists.antt =====
-- Lists measured by native numbers, the filters and tests of comprehensions, and predicates on
-- every element.
use Prim.Native.Nat.{ℕ, zero, suc, ◌+◌, ◌≤◌}
use mathlib.Core.Path.{◌≡◌, refl}
use mathlib.Core.Bool.{Bool, true, false, not, ◌&&◌, ◌||◌}
use mathlib.Core.List.{List, [], ◌∷◌, ◌++◌, map}
use mathlib.Core.Option.{Option, none, some}
use native.Mathlib.Omega.{arith}
use ops_monitor.Common.Tests.{leb, if◌then◌else◌}

module _ {ℓ} {A : Type ℓ} where
  abbrev pub length : List A → ℕ
  length [] = 0
  length (_ ∷ xs) = suc (length xs)

  -- `[x for x in xs if p(x)]`
  abbrev pub filter : (A → Bool) → List A → List A
  filter p [] = []
  filter p (x ∷ xs) = let rest = filter p xs in if p x then x ∷ rest else rest

  -- `any(p(x) for x in xs)`
  abbrev pub any : (A → Bool) → List A → Bool
  any p [] = false
  any p (x ∷ xs) = p x || any p xs

  -- `all(p(x) for x in xs)`
  abbrev pub all : (A → Bool) → List A → Bool
  all p [] = true
  all p (x ∷ xs) = p x && all p xs

  -- The first element that passes the test: `.first()`.
  abbrev pub find : (A → Bool) → List A → Option A
  find p [] = none
  find p (x ∷ xs) = let rest = find p xs in if p x then some x else rest

  abbrev pub get_or : List A → ℕ → A → A
  get_or [] i d = d
  get_or (x ∷ xs) zero d = x
  get_or (_ ∷ xs) (suc i) d = get_or xs i d

  abbrev pub take : ℕ → List A → List A
  take zero xs = []
  take (suc n) [] = []
  take (suc n) (x ∷ xs) = x ∷ take n xs

  abbrev pub drop : ℕ → List A → List A
  drop zero xs = xs
  drop (suc n) [] = []
  drop (suc n) (_ ∷ xs) = drop n xs

  abbrev pub All {κ} : (A → Type κ) → List A → Type κ
  All P [] = Unit
  All P (x ∷ xs) = P x × All P xs

  pub length-append : (xs ys : List A) → length (xs ++ ys) ≡ length xs + length ys
  length-append [] ys = omega arith
  length-append (x ∷ xs) ys = omega (arith, length-append xs ys)

  pub length-filter : (p : A → Bool) (xs : List A) → length (filter p xs) ≤ length xs
  length-filter p [] = omega arith
  length-filter p (x ∷ xs) = ground (arith, length-filter p xs)

  pub length-take : (n : ℕ) (xs : List A) → length (take n xs) ≤ n
  length-take zero xs = omega arith
  length-take (suc n) [] = omega arith
  length-take (suc n) (x ∷ xs) = omega (arith, length-take n xs)

module _ {ℓ κ} {A : Type ℓ} (P : A → Type κ) where
  pub All-append : (xs ys : List A) → All P xs → All P ys → All P (xs ++ ys)
  All-append [] ys hx hy = hy
  All-append (x ∷ xs) ys hx hy = (hx.0, All-append xs ys hx.1 hy)

  pub All-filter : (p : A → Bool) (xs : List A) → All P xs → All P (filter p xs)
  All-filter p [] h = h
  All-filter p (x ∷ xs) h =
      elim (p x) as (λ b. All P (if b then x ∷ filter p xs else filter p xs)) [
        | true ↦ (h.0, All-filter p xs h.1)
        | false ↦ All-filter p xs h.1
      ]

  pub All-take : (n : ℕ) (xs : List A) → All P xs → All P (take n xs)
  All-take zero xs h = tt
  All-take (suc n) [] h = h
  All-take (suc n) (x ∷ xs) h = (h.0, All-take n xs h.1)

  pub All-of : ((x : A) → P x) → (xs : List A) → All P xs
  All-of f [] = tt
  All-of f (x ∷ xs) = (f x, All-of f xs)

pub All-map {ℓ κ μ} :
    {A : Type ℓ} (P : A → Type κ) (Q : A → Type μ)
    → ((x : A) → P x → Q x)
    → (xs : List A) → All P xs
    → All Q xs
All-map P Q f [] h = tt
All-map P Q f (x ∷ xs) h = (f x h.0, All-map P Q f xs h.1)

pub All-and {ℓ κ μ} :
    {A : Type ℓ} (P : A → Type κ) (Q : A → Type μ) (xs : List A)
    → All P xs
    → All Q xs
    → All (λ x. P x × Q x) xs
All-and P Q [] h k = tt
All-and P Q (x ∷ xs) h k = ((h.0, k.0), All-and P Q xs h.1 k.1)

pub All-on_map {ℓ κ} :
    {A B : Type ℓ} (f : A → B) (P : B → Type κ) (xs : List A)
    → All (λ x. P (f x)) xs
    → All P (map f xs)
All-on_map f P [] h = tt
All-on_map f P (x ∷ xs) h = (h.0, All-on_map f P xs h.1)

-- `ORDER BY key ASC`, and `set` on a list: the first of equal elements stays.
module _ {ℓ} {A : Type ℓ} where
  unfoldable pub insert_by : (A → ℕ) → A → List A → List A
  insert_by key x [] = x ∷ []
  insert_by key x (y ∷ ys) =
      let rest = insert_by key x ys in if leb (key x) (key y) then x ∷ y ∷ ys else y ∷ rest

  unfoldable pub sort_by : (A → ℕ) → List A → List A
  unfolding insert_by
  sort_by key [] = []
  sort_by key (x ∷ xs) = insert_by key x (sort_by key xs)

  unfoldable pub dedup : (A → A → Bool) → List A → List A
  dedup same [] = []
  dedup same (x ∷ xs) = x ∷ filter (λ y. not (same x y)) (dedup same xs)

module _ {ℓ κ μ} {A : Type ℓ} (P : A → Type κ) (Q : A → Type μ) where
  -- What passes a filter has what held before and what the test shows.
  pub All-filter_of :
      (p : A → Bool)
      → ((x : A) → P x → p x ≡ true → Q x)
      → (xs : List A) → All P xs
      → All Q (filter p xs)
  All-filter_of p f [] h = tt
  All-filter_of p f (x ∷ xs) h = go (p x) (f x h.0) (All-filter_of p f xs h.1)
    where
      go :
          (b : Bool)
          → (b ≡ true → Q x)
          → All Q (filter p xs)
          → All Q (if b then x ∷ filter p xs else filter p xs)
      go true g rest = (g refl, rest)
      go false g rest = rest

module _ {ℓ κ} {A : Type ℓ} (P : A → Type κ) (key : A → ℕ) where
  pub All-insert_by : (x : A) (xs : List A) → P x → All P xs → All P (insert_by key x xs)
  unfolding insert_by
  All-insert_by x [] px h = (px, tt)
  All-insert_by x (y ∷ ys) px h =
      elim (leb (key x) (key y))
        as (λ b. All P (if b then x ∷ y ∷ ys else y ∷ insert_by key x ys)) [
          | true ↦ (px, h)
          | false ↦ (h.0, All-insert_by x ys px h.1)
        ]

  pub All-sort_by : (xs : List A) → All P xs → All P (sort_by key xs)
  unfolding sort_by
  All-sort_by [] h = tt
  All-sort_by (x ∷ xs) h = All-insert_by x (sort_by key xs) h.0 (All-sort_by xs h.1)
