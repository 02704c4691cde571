-- ===== src/Common/Action/Counts.antt =====
-- A loop that counts what its rounds add to a measure of the state.
use ops_monitor.Common.Action.Post.{Post, Post-continue, Post-imp}
use ops_monitor.Common.Action.{Action, sum_each, ◌>>=◌, pure}
use ops_monitor.Common.{ℕ, List, ◌≡◌, arith, ◌+◌, ◌∷◌, ◌∙◌, []}

module _ {S : Type 0} (size : S → ℕ) where
  -- The result is how much the measure grows.
  abbrev pub Counts : Action S ℕ → Type 0
  Counts m = (s : S) → Post (λ n s'. size s' ≡ size s + n) (m s)

  -- The measure stays.
  abbrev pub Stays : {A : Type 0} → Action S A → Type 0
  Stays m = (s : S) → Post (λ _ s'. size s' ≡ size s) (m s)

  pub sum_each-Counts :
      {A : Type 0} (body : A → Action S ℕ)
      → ((x : A) → Counts (body x))
      → (xs : List A) → Counts (sum_each xs body)
  unfolding sum_each
  sum_each-Counts body h [] s = omega arith
  sum_each-Counts body h (x ∷ xs) s =
      Post-continue (λ n s'. size s' ≡ size s + n) (λ n s'. size s' ≡ size s + n) (body x s)
        (λ n. sum_each xs body >>= λ m. pure (n + m)) (h x s)
        (λ n t q.
          Post-continue (λ m s'. size s' ≡ size t + m) (λ m s'. size s' ≡ size s + m)
            (sum_each xs body t) (λ m. pure (n + m)) (sum_each-Counts body h xs t)
            (λ m u r. omega (arith, q, r)))

  pub bind-Stays :
      {A B : Type 0} (m : Action S A) (f : A → Action S B)
      → Stays m
      → ((a : A) → Stays (f a))
      → Stays (m >>= f)
  bind-Stays m f hm hf s =
      Post-continue (λ _ s'. size s' ≡ size s) (λ _ s'. size s' ≡ size s) (m s) f (hm s)
        (λ a t q.
          Post-imp (λ _ s'. size s' ≡ size t) (λ _ s'. size s' ≡ size s) (f a t) (λ _ _ r. r ∙ q)
            (hf a t))

  -- An action that leaves the measure, before one that counts.
  pub bind-Counts :
      {A : Type 0} (m : Action S A) (f : A → Action S ℕ)
      → Stays m
      → ((a : A) → Counts (f a))
      → Counts (m >>= f)
  bind-Counts m f hm hf s =
      Post-continue (λ _ s'. size s' ≡ size s) (λ n s'. size s' ≡ size s + n) (m s) f (hm s)
        (λ a t q.
          Post-imp (λ n s'. size s' ≡ size t + n) (λ n s'. size s' ≡ size s + n) (f a t)
            (λ _ _ r. omega (arith, r, q)) (hf a t))

  -- An action that counts, before one that leaves the measure and the count.
  pub then-Counts :
      {A : Type 0} (m : Action S A) (f : A → Action S ℕ) (n : ℕ)
      → ((s : S) → Post (λ _ s'. size s' ≡ size s + n) (m s))
      → ((a : A) (s : S) → Post (λ k s'. (size s' ≡ size s) × (k ≡ n)) (f a s))
      → Counts (m >>= f)
  then-Counts m f n hm hf s =
      Post-continue (λ _ s'. size s' ≡ size s + n) (λ k s'. size s' ≡ size s + k) (m s) f (hm s)
        (λ a t q.
          Post-imp (λ k s'. (size s' ≡ size t) × (k ≡ n)) (λ k s'. size s' ≡ size s + k) (f a t)
            (λ _ _ r. omega (arith, r.0, r.1, q)) (hf a t))

  -- The measure stays and the result is the number.
  abbrev pub Ends : ℕ → Action S ℕ → Type 0
  Ends n m = (s : S) → Post (λ k s'. (size s' ≡ size s) × (k ≡ n)) (m s)

  pub bind-Ends :
      {A : Type 0} (n : ℕ) (m : Action S A) (f : A → Action S ℕ)
      → Stays m
      → ((a : A) → Ends n (f a))
      → Ends n (m >>= f)
  bind-Ends n m f hm hf s =
      Post-continue (λ _ s'. size s' ≡ size s) (λ k s'. (size s' ≡ size s) × (k ≡ n)) (m s) f (hm s)
        (λ a t q.
          Post-imp (λ k s'. (size s' ≡ size t) × (k ≡ n)) (λ k s'. (size s' ≡ size s) × (k ≡ n))
            (f a t) (λ _ _ r. (r.0 ∙ q, r.1)) (hf a t))
