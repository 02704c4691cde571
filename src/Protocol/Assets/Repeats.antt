-- ===== src/Protocol/Assets/Repeats.antt =====
-- Reports whose entries each overwrite a recorded fact or keep it: merged in a second time, they
-- change nothing.
use ops_monitor.Tasks.Retry.{is_given}
use ops_monitor.Protocol.Assets.{given_text_or}
use ops_monitor.Protocol.Statuses.{given_or}
use ops_monitor.Protocol.Assets.Inventory.{merged}
use ops_monitor.Common.{
  ◌≡◌, Bool, ◌⊎◌, List, Option, ◌∷◌, inr, true, false, some, none, inl, if◌then◌else◌, Bool-cases,
  ◌∙◌, subst, ap, [], sym, refl, Option-cases, String,
}

-- `op a` writes `init a`, or keeps what there is.
abbrev pub Overwrites : {R F : Type 0} → (R → F → F) → (R → F) → Type 0
Overwrites {R} {F} op init = (a : R) → ((f : F) → op a f ≡ init a) ⊎ ((f : F) → op a f ≡ f)

module _ {R F : Type 0} (concerns : R → Bool) (op : R → F → F) (init : R → F)
    (o : Overwrites op init) where
  unfoldable over : List R → F → F
  over [] f = f
  over (a ∷ rest) f = over rest (if concerns a then op a f else f)

  over-cases : (r : List R) → ((f g : F) → over r f ≡ over r g) ⊎ ((f : F) → over r f ≡ f)
  unfolding over
  over-cases [] = inr (λ f. refl)
  over-cases (a ∷ r) = elim (over-cases r) [
    | inl c ↦ inl (λ f g. c _ _)
    | inr k ↦ elim (Bool-cases (concerns a)) [
      | inr n ↦ inr (λ f. rw n (k f))
      | inl y ↦ elim (o a) [
        | inl w ↦ inl (λ f g. rw (y, w f, w g) refl)
        | inr s ↦ inr (λ f. rw (y, s f) (k f))
      ]
    ]
  ]

  over_twice : (r : List R) (f : F) → over r (over r f) ≡ over r f
  over_twice r f = elim (over-cases r) [ inl c ↦ c (over r f) f | inr k ↦ k (over r f) ]

  over_init :
      (a : R) (r : List R) → concerns a ≡ true → over (a ∷ r) (over r (init a)) ≡ over r (init a)
  unfolding over
  over_init a r c = elim (o a) [
    | inl w ↦ rw (c, w (over r (init a))) refl
    | inr s ↦ rw (c, s (over r (init a))) (over_twice r (init a))
  ]

  over_skip : (a : R) (r : List R) (f : F) → concerns a ≡ false → over (a ∷ r) f ≡ over r f
  unfolding over
  over_skip a r f n = rw n refl

module _ {R F G : Type 0} (concerns : R → Bool) (op_f : R → F → F) (op_g : R → G → G)
    (init : R → F × G) (of : Overwrites op_f (λ a. (init a).0))
    (og : Overwrites op_g (λ a. (init a).1)) where
  abbrev pub merge : R → Option (F × G) → F × G
  merge a none = init a
  merge a (some v) = (op_f a v.0, op_g a v.1)

  abbrev facts : List R → F × G → F × G
  facts r v =
      (over concerns op_f (λ a. (init a).0) of r v.0, over concerns op_g (λ a. (init a).1) og r v.1)

  merged-some : (r : List R) (v : F × G) → merged concerns merge r (some v) ≡ some (facts r v)
  unfolding merged over
  merged-some [] v = refl
  merged-some (a ∷ r) v = elim (Bool-cases (concerns a)) [
    | inl y ↦ rw y (merged-some r (op_f a v.0, op_g a v.1))
    | inr n ↦ rw n (merged-some r v)
  ]

  -- What is recorded first is not changed by the same report.
  abbrev Settled : List R → Option (F × G) → Type 0
  Settled r none = Unit
  Settled r (some v) = facts r v ≡ v

  merged-none-Settled : (r : List R) → Settled r (merged concerns merge r none)
  unfolding merged
  merged-none-Settled [] = tt
  merged-none-Settled (a ∷ r) = elim (Bool-cases (concerns a)) [
    | inl y ↦
        let first : merged concerns merge (a ∷ r) none ≡ some (facts r (init a)) =
          rw y (merged-some r (init a)) in
        subst (Settled (a ∷ r)) (sym first) (
          rw
            (
              over_init concerns op_f (λ a. (init a).0) of a r y,
              over_init concerns op_g (λ a. (init a).1) og a r y,
            )
            refl)
    | inr n ↦
        let later : merged concerns merge (a ∷ r) none ≡ merged concerns merge r none = rw n refl in
        subst (Settled (a ∷ r)) (sym later)
          (skip n (merged concerns merge r none) (merged-none-Settled r))
  ]
    where
      skip : concerns a ≡ false → (v : Option (F × G)) → Settled r v → Settled (a ∷ r) v
      skip n none h = tt
      skip n (some v) h =
          rw
            (
              over_skip concerns op_f (λ a. (init a).0) of a r v.0 n,
              over_skip concerns op_g (λ a. (init a).1) og a r v.1 n,
            )
            h

  merge_twice :
      (r : List R) (v : Option (F × G))
      → merged concerns merge r (merged concerns merge r v) ≡ merged concerns merge r v
  merge_twice r (some v) =
      ap (merged concerns merge r) (merged-some r v)
      ∙ merged-some r (facts r v)
      ∙ ap some (
          rw
            (
              over_twice concerns op_f (λ a. (init a).0) of r v.0,
              over_twice concerns op_g (λ a. (init a).1) og r v.1,
            )
            refl)
      ∙ sym (merged-some r v)
  merge_twice r none = elim (Option-cases (merged concerns merge r none)) [
    | inl n ↦ ap (merged concerns merge r) n
    | inr s ↦
        let h : facts r s.0 ≡ s.0 = subst (Settled r) s.1 (merged-none-Settled r) in
        ap (merged concerns merge r) s.1 ∙ merged-some r s.0 ∙ ap some h ∙ sym s.1
  ]

  -- The same of any way to merge that does what `merge` does.
  module _ (m : R → Option (F × G) → F × G)
      (same : (a : R) (v : Option (F × G)) → m a v ≡ merge a v) where
    merged-cong :
        (r : List R) (v : Option (F × G)) → merged concerns m r v ≡ merged concerns merge r v
    unfolding merged
    merged-cong [] v = refl
    merged-cong (a ∷ r) v = elim (Bool-cases (concerns a)) [
      | inl y ↦
          rw y
            (ap (λ x. merged concerns m r (some x)) (same a v) ∙ merged-cong r (some (merge a v)))
      | inr n ↦ rw n (merged-cong r v)
    ]

    pub merged_twice :
        (r : List R) (v : Option (F × G))
        → merged concerns m r (merged concerns m r v) ≡ merged concerns m r v
    merged_twice r v =
        ap (merged concerns m r) (merged-cong r v)
        ∙ merged-cong r (merged concerns merge r v)
        ∙ merge_twice r v
        ∙ sym (merged-cong r v)

pub given_text-Overwrites :
    {R : Type 0} (f : R → Option String) → Overwrites (λ a o. given_text_or (f a) o) f
given_text-Overwrites f a = elim (Bool-cases (is_given (f a))) [
  | inl y ↦ inl (λ o. rw y refl)
  | inr n ↦ inr (λ o. rw n refl)
]

pub given-Overwrites : {R A : Type 0} (f : R → Option A) → Overwrites (λ a o. given_or (f a) o) f
given-Overwrites {A = A} f a = go (f a)
  where
    go : (o : Option A) → ((g : Option A) → given_or o g ≡ o) ⊎ ((g : Option A) → given_or o g ≡ g)
    go none = inr (λ g. refl)
    go (some x) = inl (λ g. refl)
