-- ===== src/Common/Table/Elements.antt =====
-- Tests and filters on lists by their elements.
use ops_monitor.Common.{
  Bool, List, ◌≡◌, any, all, filter, true, Bool-cases, not, ◌∷◌, inl, refl, subst, arith,
  if◌then◌else◌, inr, sym, [], false, find, none,
}
use ops_monitor.Common.Table.Laws.{Has}

-- Lists with the same elements pass the same tests.
module _ {A : Type 0} where
  pub Has-any : (p : A → Bool) (x : A) (xs : List A) → Has x xs → p x ≡ true → any p xs ≡ true
  Has-any p x [] h t = absurd h
  Has-any p x (y ∷ xs) (inl q) t = let u : p y ≡ true = subst (λ z. p z ≡ true) q t in rw u refl
  Has-any p x (y ∷ xs) (inr h) t = let r : any p xs ≡ true = Has-any p x xs h t in ground arith

  pub any-Has : (p : A → Bool) (xs : List A) → any p xs ≡ true → (x : A) × (Has x xs × (p x ≡ true))
  any-Has p [] q = cc
  any-Has p (x ∷ xs) q = elim (Bool-cases (p x)) [
    | inl t ↦ (x, (inl refl, t))
    | inr f ↦ let r = any-Has p xs (ground arith) in (r.0, (inr r.1.0, r.1.1))
  ]

  abbrev pub SameElements : List A → List A → Type 0
  SameElements xs ys = ((x : A) → Has x xs → Has x ys) × ((x : A) → Has x ys → Has x xs)

  pub any-same : (p : A → Bool) (xs ys : List A) → SameElements xs ys → any p xs ≡ any p ys
  any-same p xs ys h = elim (Bool-cases (any p xs)) [
    | inl t ↦
        let w = any-Has p xs t in
        let u : any p ys ≡ true = Has-any p w.0 ys (h.0 w.0 w.1.0) w.1.1 in cc
    | inr f ↦ elim (Bool-cases (any p ys)) [
      | inl t ↦
          let w = any-Has p ys t in
          let u : any p xs ≡ true = Has-any p w.0 xs (h.1 w.0 w.1.0) w.1.1 in cc
      | inr g ↦ cc
    ]
  ]

  pub all-not-any : (p : A → Bool) (xs : List A) → all p xs ≡ not (any (λ x. not (p x)) xs)
  all-not-any p [] = refl
  all-not-any p (x ∷ xs) = let q = all-not-any p xs in ground (arith, q)

  pub all-same : (p : A → Bool) (xs ys : List A) → SameElements xs ys → all p xs ≡ all p ys
  all-same p xs ys h =
      rw (all-not-any p xs, all-not-any p ys, any-same (λ x. not (p x)) xs ys h) refl

  pub Has-filter :
      (p : A → Bool) (x : A) (xs : List A) → Has x xs → p x ≡ true → Has x (filter p xs)
  Has-filter p x [] h t = absurd h
  Has-filter p x (y ∷ xs) h t = elim (Bool-cases (p y)) [
    | inl u ↦ rw u (elim h [ inl q ↦ inl q | inr k ↦ inr (Has-filter p x xs k t) ])
    | inr n ↦ rw n (elim h [
      | inl q ↦ absurd (let v : p y ≡ true = subst (λ z. p z ≡ true) q t in cc)
      | inr k ↦ Has-filter p x xs k t
    ])
  ]

  pub of_Has-filter :
      (p : A → Bool) (x : A) (xs : List A) → Has x (filter p xs) → Has x xs × (p x ≡ true)
  of_Has-filter p x [] h = absurd h
  of_Has-filter p x (y ∷ xs) h = go (p y) refl h (of_Has-filter p x xs)
    where
      go :
          (b : Bool)
          → p y ≡ b
          → Has x (if b then y ∷ filter p xs else filter p xs)
          → (Has x (filter p xs) → Has x xs × (p x ≡ true))
          → Has x (y ∷ xs) × (p x ≡ true)
      go true t (inl q) i = (inl q, subst (λ z. p z ≡ true) (sym q) t)
      go true t (inr k) i = (inr (i k).0, (i k).1)
      go false t k i = (inr (i k).0, (i k).1)

-- What finds nothing holds of no element.
module _ {A : Type 0} (p : A → Bool) where
  pub none-Has : (x : A) (xs : List A) → find p xs ≡ none → Has x xs → p x ≡ false
  none-Has x [] n h = absurd h
  none-Has x (y ∷ xs) n (inl q) = elim (Bool-cases (p x)) [
    | inr f ↦ f
    | inl t ↦ let u : p y ≡ true = subst (λ z. p z ≡ true) q t in absurd (ground arith)
  ]
  none-Has x (y ∷ xs) n (inr h) = none-Has x xs (ground arith) h
