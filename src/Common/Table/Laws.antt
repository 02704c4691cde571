-- ===== src/Common/Table/Laws.antt =====
-- What the operations of a table keep, over any entity.
use ops_monitor.Common.{
  List, ℕ, ◌∷◌, All, map, ◌≡◌, ◌≢◌, ◌<◌, [], if◌then◌else◌, ◌⊎◌, All-append, Bool, some, arith,
  true, inl, find, All-of, false, inr, Bool-cases, All-map, sym, ◌++◌, subst, ◌+◌, ◌∙◌, ap, length,
  length-append, refl,
}
use ops_monitor.Common.Table
use ops_monitor.Common.Table.{Table, Entity}

-- `a` is an element of the list.
abbrev pub Has : {A : Type 0} → A → List A → Type 0
Has a [] = ⊥
Has a (x ∷ xs) = (a ≡ x) ⊎ Has a xs

pub Has-append : {A : Type 0} (a : A) (xs ys : List A) → Has a xs → Has a (xs ++ ys)
Has-append a [] ys h = absurd h
Has-append a (x ∷ xs) ys (inl q) = inl q
Has-append a (x ∷ xs) ys (inr h) = inr (Has-append a xs ys h)

module _ {A : Type 0} ⦃e : Entity A⦄ where
  abbrev pub Fresh : ℕ → List A → Type 0
  Fresh k xs = All (λ r. e.id_of r ≢ k) xs

  abbrev pub Distinct : List A → Type 0
  Distinct [] = Unit
  Distinct (x ∷ xs) = Fresh (e.id_of x) xs × Distinct xs

  abbrev pub Below : ℕ → List A → Type 0
  Below n xs = All (λ r. e.id_of r < n) xs

  -- The keys are distinct, and below the next one.
  pub record IsTable (t : Table A) : Type 0 where
    pub below : Below t.next_id t.rows
    pub distinct : Distinct t.rows

  module _ (P : A → Type 0) where
    pub All-map-replace : (x : A) (xs : List A) → All P xs → P x → All P (map (Table.replace x) xs)
    All-map-replace x [] h p = tt
    All-map-replace x (r ∷ xs) h p = (
      elim (Table.has_id (e.id_of x) r) as (λ b. P (if b then x else r)) [ true ↦ p | false ↦ h.0 ],
      All-map-replace x xs h.1 p,
    )

    pub All-save : (x : A) (t : Table A) → All P t.rows → P x → All P (Table.save x t).rows
    unfolding Table.save
    All-save x t h p = All-map-replace x t.rows h p

    pub All-create :
        (f : ℕ → A) (t : Table A) → All P t.rows → P (f t.next_id) → All P (Table.create f t).1.rows
    unfolding Table.create
    All-create f t h p = All-append P t.rows (f t.next_id ∷ []) h (p, tt)

    pub All-find :
        (p : A → Bool) (xs : List A) {a : A} → All P xs → find p xs ≡ some a → P a × (p a ≡ true)
    All-find p [] h e = cc
    All-find p (x ∷ xs) {a} h e = elim (Bool-cases (p x)) [
      | inl yes_ ↦ let q : x ≡ a = ground arith in subst (λ y. P y × (p y ≡ true)) q (h.0, yes_)
      | inr no_ ↦ All-find p xs h.1 (ground arith)
    ]

  pub id-get : (k : ℕ) (t : Table A) {a : A} → Table.get k t ≡ some a → e.id_of a ≡ k
  unfolding Table.get
  id-get k t {a} h = ground (
    arith,
    (All-find (λ _. Unit) (Table.visible (Table.has_id k)) t.rows
        (All-of (λ _. Unit) (λ _. tt) t.rows) h).1,
  )

  pub All-get :
      (P : A → Type 0) (k : ℕ) (t : Table A) {a : A} → All P t.rows → Table.get k t ≡ some a → P a
  unfolding Table.get
  All-get P k t h g = (All-find P (Table.visible (Table.has_id k)) t.rows h g).0

  -- A row with another key stays when one is written, and every row when one is created.
  Has-map-replace :
      (a x : A) (xs : List A) → e.id_of x ≢ e.id_of a → Has a xs → Has a (map (Table.replace x) xs)
  Has-map-replace a x [] ne h = h
  Has-map-replace a x (r ∷ xs) ne (inl q) = inl (ground arith)
  Has-map-replace a x (r ∷ xs) ne (inr h) = inr (Has-map-replace a x xs ne h)

  pub Has-save :
      (a x : A) (t : Table A) → e.id_of x ≢ e.id_of a → Has a t.rows → Has a (Table.save x t).rows
  unfolding Table.save
  Has-save a x t ne h = Has-map-replace a x t.rows ne h

  pub Has-create :
      (a : A) (f : ℕ → A) (t : Table A) → Has a t.rows → Has a (Table.create f t).1.rows
  unfolding Table.create
  Has-create a f t h = Has-append a t.rows (f t.next_id ∷ []) h

  -- Writing a row keeps the keys, so the table stays well formed.
  Fresh-map-replace :
      (k : ℕ) (x : A) (xs : List A) → Fresh k xs → Fresh k (map (Table.replace x) xs)
  Fresh-map-replace k x [] h = tt
  Fresh-map-replace k x (r ∷ xs) h = (ground arith, Fresh-map-replace k x xs h.1)

  Below-map-replace :
      (n : ℕ) (x : A) (xs : List A) → Below n xs → Below n (map (Table.replace x) xs)
  Below-map-replace n x [] h = tt
  Below-map-replace n x (r ∷ xs) h = (ground arith, Below-map-replace n x xs h.1)

  id-replace : (x r : A) → e.id_of (Table.replace x r) ≡ e.id_of r
  id-replace x r = ground arith

  Distinct-map-replace : (x : A) (xs : List A) → Distinct xs → Distinct (map (Table.replace x) xs)
  Distinct-map-replace x [] h = tt
  Distinct-map-replace x (r ∷ xs) h =
      (rw (id-replace x r) (Fresh-map-replace (e.id_of r) x xs h.0), Distinct-map-replace x xs h.1)

  pub save-IsTable : (x : A) (t : Table A) → IsTable t → IsTable (Table.save x t)
  unfolding Table.save
  save-IsTable x t h = record {
    below = Below-map-replace t.next_id x t.rows h.below;
    distinct = Distinct-map-replace x t.rows h.distinct;
  }

  Distinct-append :
      (n : ℕ) (x : A) (xs : List A)
      → Below n xs
      → e.id_of x ≡ n
      → Distinct xs
      → Distinct (xs ++ x ∷ [])
  Distinct-append n x [] b i d = (tt, tt)
  Distinct-append n x (r ∷ xs) b i d = (
    All-append (λ y. e.id_of y ≢ e.id_of r) xs (x ∷ []) d.0 (omega arith, tt),
    Distinct-append n x xs b.1 i d.1,
  )

  pub create-IsTable :
      (f : ℕ → A) (t : Table A)
      → e.id_of (f t.next_id) ≡ t.next_id
      → IsTable t
      → IsTable (Table.create f t).1
  unfolding Table.create
  create-IsTable f t i h = record {
    below =
        All-append (λ r. e.id_of r < t.next_id + 1) t.rows (f t.next_id ∷ [])
          (All-map (λ r. e.id_of r < t.next_id) (λ r. e.id_of r < t.next_id + 1)
            (λ r b. omega arith) t.rows h.below)
          (omega arith, tt);
    distinct = Distinct-append t.next_id (f t.next_id) t.rows h.below i h.distinct;
  }

  -- Two rows of a well-formed table that differ have different keys.
  Fresh-Has : (k : ℕ) (a : A) (xs : List A) → Fresh k xs → Has a xs → e.id_of a ≢ k
  Fresh-Has k a [] f h = absurd h
  Fresh-Has k a (x ∷ xs) f (inl q) = rw q f.0
  Fresh-Has k a (x ∷ xs) f (inr h) = Fresh-Has k a xs f.1 h

  pub others_of_Has :
      (test : A → Bool) (a : A) (xs : List A)
      → Distinct xs
      → Has a xs
      → test a ≡ true
      → All (λ x. test x ≡ false → e.id_of x ≢ e.id_of a) xs
  others_of_Has test a [] d h t = tt
  others_of_Has test a (x ∷ xs) d (inl q) t = (
    λ f. cc,
    All-map (λ y. e.id_of y ≢ e.id_of x) (λ y. test y ≡ false → e.id_of y ≢ e.id_of a)
        (λ y n _. rw q n) xs d.0,
  )
  others_of_Has test a (x ∷ xs) d (inr h) t =
      (λ _ q. Fresh-Has (e.id_of x) a xs d.0 h (sym q), others_of_Has test a xs d.1 h t)

pub Has-find :
    {A : Type 0} (p : A → Bool) (xs : List A) {a : A} → find p xs ≡ some a → Has a xs × (p a ≡ true)
Has-find p [] q = cc
Has-find p (x ∷ xs) {a} q = elim (Bool-cases (p x)) [
  | inl t ↦ let e : a ≡ x = ground arith in (inl e, rw e t)
  | inr f ↦ let r : Has a xs × (p a ≡ true) = Has-find p xs (ground arith) in (inr r.0, r.1)
]

module _ {A : Type 0} ⦃e : Entity A⦄ where
  pub Has-get : (k : ℕ) (t : Table A) {a : A} → Table.get k t ≡ some a → Has a t.rows
  unfolding Table.get
  Has-get k t q = (Has-find (Table.visible (Table.has_id k)) t.rows q).0

  Has-replace_self :
      (old x : A) (xs : List A)
      → e.id_of x ≡ e.id_of old
      → Has old xs
      → Has x (map (Table.replace x) xs)
  Has-replace_self old x [] i h = absurd h
  Has-replace_self old x (r ∷ xs) i (inl q) = inl (ground arith)
  Has-replace_self old x (r ∷ xs) i (inr h) = inr (Has-replace_self old x xs i h)

  -- What is written over a row is a row.
  pub Has-save_self :
      (old x : A) (t : Table A)
      → e.id_of x ≡ e.id_of old
      → Has old t.rows
      → Has x (Table.save x t).rows
  unfolding Table.save
  Has-save_self old x t i h = Has-replace_self old x t.rows i h

  -- What a row of a well-formed table has, every row with its key has.
  pub All-same_id :
      (P : A → Type 0) (a : A) (xs : List A)
      → Distinct xs
      → Has a xs
      → P a
      → All (λ x. e.id_of x ≡ e.id_of a → P x) xs
  All-same_id P a [] d h p = tt
  All-same_id P a (x ∷ xs) d (inl q) p = (
    λ _. subst P q p,
    All-map (λ y. e.id_of y ≢ e.id_of x) (λ y. e.id_of y ≡ e.id_of a → P y)
        (λ y n i. absurd (n (i ∙ ap e.id_of q))) xs d.0,
  )
  All-same_id P a (x ∷ xs) d (inr h) p =
      (λ i. absurd (Fresh-Has (e.id_of x) a xs d.0 h (sym i)), All-same_id P a xs d.1 h p)

pub All-Has : {A : Type 0} (P : A → Type 0) (a : A) (xs : List A) → All P xs → Has a xs → P a
All-Has P a [] h k = absurd k
All-Has P a (x ∷ xs) h (inl q) = subst P (sym q) h.0
All-Has P a (x ∷ xs) h (inr k) = All-Has P a xs h.1 k

module _ {A : Type 0} ⦃e : Entity A⦄ where
  length-map-replace : (x : A) (xs : List A) → length (map (Table.replace x) xs) ≡ length xs
  length-map-replace x [] = refl
  length-map-replace x (r ∷ xs) = omega (arith, length-map-replace x xs)

  pub length-save : (x : A) (t : Table A) → length (Table.save x t).rows ≡ length t.rows
  unfolding Table.save
  length-save x t = length-map-replace x t.rows

  pub length-create :
      (f : ℕ → A) (t : Table A) → length (Table.create f t).1.rows ≡ length t.rows + 1
  unfolding Table.create
  length-create f t = length-append t.rows (f t.next_id ∷ [])
