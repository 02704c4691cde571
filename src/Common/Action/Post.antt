-- ===== src/Common/Action/Post.antt =====
-- Postconditions of actions: what holds of the result and the state if the action does not raise,
-- with a rule for each way to build an action.
use mathlib.Core.Path.{◌≡◌, refl}
use ops_monitor.Exceptions.{Error}
use ops_monitor.Common.{Option, Bool, List, ◌≡◌, ◌∷◌, ℕ, some, true, [], false, if◌then◌else◌, none}
use ops_monitor.Common.Action.{
  Result, Action, for_each, sum_each, map_each, ok, continue, err, or_raise, raise_if, ◌>>=◌,
}

-- `Q` holds of what a successful result carries.
abbrev pub Post : {S A : Type 0} → (A → S → Type 0) → Result (A × S) → Type 0
Post Q (ok (a, s)) = Q a s
Post Q (err _) = Unit

module _ {S A : Type 0} (Q : A → S → Type 0) where
  pub Post-or_raise :
      (o : Option A) (x : Error) (s : S) → ((a : A) → o ≡ some a → Q a s) → Post Q (or_raise o x s)
  Post-or_raise none x s h = tt
  Post-or_raise (some a) x s h = h a refl

  pub Post-if :
      (b : Bool) (m n : Action S A) (s : S)
      → (b ≡ true → Post Q (m s))
      → (b ≡ false → Post Q (n s))
      → Post Q ((if b then m else n) s)
  Post-if true m n s hm hn = hm refl
  Post-if false m n s hm hn = hn refl

  pub Post-raise_if :
      (b : Bool) (x : Error) (m : Action S A) (s : S)
      → (b ≡ false → Post Q (m s))
      → Post Q ((raise_if b x >>= λ _. m) s)
  Post-raise_if true x m s h = tt
  Post-raise_if false x m s h = h refl

  pub Post-option :
      {B : Type 0} (o : Option B) (r : Result (A × S)) (f : B → Result (A × S))
      → (o ≡ none → Post Q r)
      → ((b : B) → o ≡ some b → Post Q (f b))
      → Post Q (elim o [ none ↦ r | some b ↦ f b ])
  Post-option none r f hn hs = hn refl
  Post-option (some b) r f hn hs = hs b refl

  pub Post-optional :
      {B : Type 0} (o : Option B) (m : Action S A) (f : B → Action S A) (s : S)
      → (o ≡ none → Post Q (m s))
      → ((b : B) → o ≡ some b → Post Q (f b s))
      → Post Q ((elim o as (λ _. Action S A) [ none ↦ m | some b ↦ f b ]) s)
  Post-optional none m f s hn hs = hn refl
  Post-optional (some b) m f s hn hs = hs b refl

module _ {S A B : Type 0} (R : A → S → Type 0) (Q : B → S → Type 0) where
  pub Post-continue :
      (r : Result (A × S)) (f : A → Action S B)
      → Post R r
      → ((a : A) (s : S) → R a s → Post Q (f a s))
      → Post Q (continue r f)
  Post-continue (ok (a, s)) f h k = k a s h
  Post-continue (err e) f h k = tt

-- A loop keeps `J`, which may speak of the elements still to come.
module _ {S A : Type 0} (J : List A → S → Type 0) where
  pub Post-for_each :
      (body : A → Action S (Unit {0}))
      → ((x : A) (xs : List A) (s : S) → J (x ∷ xs) s → Post (λ _ s'. J xs s') (body x s))
      → (xs : List A) (s : S) → J xs s
      → Post (λ _ s'. J [] s') (for_each xs body s)
  unfolding for_each
  Post-for_each body step [] s h = h
  Post-for_each body step (x ∷ xs) s h =
      Post-continue (λ _ s'. J xs s') (λ _ s'. J [] s') (body x s) (λ _. for_each xs body)
        (step x xs s h) (λ _ s' h'. Post-for_each body step xs s' h')

  pub Post-sum_each :
      (body : A → Action S ℕ)
      → ((x : A) (xs : List A) (s : S) → J (x ∷ xs) s → Post (λ _ s'. J xs s') (body x s))
      → (xs : List A) (s : S) → J xs s
      → Post (λ _ s'. J [] s') (sum_each xs body s)
  unfolding sum_each
  Post-sum_each body step [] s h = h
  Post-sum_each body step (x ∷ xs) s h =
      Post-continue (λ _ s'. J xs s') (λ _ s'. J [] s') (body x s) _ (step x xs s h)
        (λ n s' h'.
          Post-continue (λ _ s''. J [] s'') (λ _ s'. J [] s') (sum_each xs body s') _
            (Post-sum_each body step xs s' h') (λ m s'' h''. h''))

module _ {S A B : Type 0} (J : List A → S → Type 0) where
  pub Post-map_each :
      (body : A → Action S B)
      → ((x : A) (xs : List A) (s : S) → J (x ∷ xs) s → Post (λ _ s'. J xs s') (body x s))
      → (xs : List A) (s : S) → J xs s
      → Post (λ _ s'. J [] s') (map_each xs body s)
  unfolding map_each
  Post-map_each body step [] s h = h
  Post-map_each body step (x ∷ xs) s h =
      Post-continue (λ _ s'. J xs s') (λ _ s'. J [] s') (body x s) _ (step x xs s h)
        (λ n s' h'.
          Post-continue (λ _ s''. J [] s'') (λ _ s'. J [] s') (map_each xs body s') _
            (Post-map_each body step xs s' h') (λ m s'' h''. h''))

pub Post-imp :
    {S A : Type 0} (R Q : A → S → Type 0) (r : Result (A × S))
    → ((a : A) (s : S) → R a s → Q a s)
    → Post R r
    → Post Q r
Post-imp R Q (ok (a, s)) f h = f a s h
Post-imp R Q (err x) f h = tt

pub any_Post : {S A : Type 0} (r : Result (A × S)) → Post (λ _ _. Unit) r
any_Post (ok (a, s)) = tt
any_Post (err x) = tt
