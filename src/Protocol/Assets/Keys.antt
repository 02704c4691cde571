-- ===== src/Protocol/Assets/Keys.antt =====
-- Keys that are texts, some of which may be missing.
use ops_monitor.Protocol.Assets.{same_optional}
use ops_monitor.Common.{
  Option, Bool, String, ◌&&◌, str_eq, ◌≡◌, true, List, Bool-cases, arith, eq_iff, some, inl,
  eq_refl, inr, none, refl, ap, any, ◌∷◌, [],
}

pub same_optional→≡ : (a b : Option String) → same_optional a b ≡ true → a ≡ b
same_optional→≡ none none h = refl
same_optional→≡ none (some b) h = cc
same_optional→≡ (some a) none h = cc
same_optional→≡ (some a) (some b) h = ap some ((eq_iff a b).0 h)

pub same_optional_refl : (a : Option String) → same_optional a a ≡ true
same_optional_refl none = refl
same_optional_refl (some a) = eq_refl a

pub and_true : (a b : Bool) → (a && b) ≡ true → (a ≡ true) × (b ≡ true)
and_true a b h = (ground arith, ground arith)

pub key_of :
    (d d' : String) (m m' : Option String)
    → (str_eq d d' && same_optional m m') ≡ true
    → (d ≡ d') × (m ≡ m')
key_of d d' m m' h =
    let k = and_true (str_eq d d') (same_optional m m') h in
    ((eq_iff d d').0 k.0, same_optional→≡ m m' k.1)

pub any-cong :
    {A : Type 0} {p r : A → Bool} → ((a : A) → p a ≡ r a) → (xs : List A) → any p xs ≡ any r xs
any-cong f [] = refl
any-cong f (a ∷ xs) = rw (f a, any-cong f xs) refl

pub str_eq_sym : (a b : String) → str_eq a b ≡ str_eq b a
str_eq_sym a b = elim (Bool-cases (str_eq a b)) [
  | inl t ↦ let p = (eq_iff a b).0 t in rw p refl
  | inr f ↦ elim (Bool-cases (str_eq b a)) [
    | inl t ↦ let p = (eq_iff b a).0 t in rw p refl
    | inr g ↦ rw (f, g) refl
  ]
]

pub same_optional_sym : (a b : Option String) → same_optional a b ≡ same_optional b a
same_optional_sym none none = refl
same_optional_sym none (some b) = refl
same_optional_sym (some a) none = refl
same_optional_sym (some a) (some b) = str_eq_sym a b
