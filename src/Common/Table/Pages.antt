-- ===== src/Common/Table/Pages.antt =====
-- The pages that `BaseRepository.list` cuts a result into.
use ops_monitor.Common.{
  ℕ, List, [], Bool, ◌≡◌, take, length, ◌+◌, ◌≤◌, suc, ◌++◌, ◌∷◌, ◌*◌, zero, drop, arith, ◌∙◌, refl,
  ◌-◌,
}
use ops_monitor.Common.Table.{Entity, Table}
use ops_monitor.Common.Table

module _ {A : Type 0} ⦃e : Entity A⦄ where
  -- The items of the first pages, one page after another.
  abbrev pub pages : (List A → List A) → ℕ → (A → Bool) → Table A → ℕ → List A
  pages order page_size p t zero = []
  pages order page_size p t (suc k) =
      pages order page_size p t k ++ (Table.list_page order (suc k) page_size p t).1

take-nil : {A : Type 0} (b : ℕ) → [] ≡ take {A = A} b []
take-nil zero = refl
take-nil (suc b) = refl

take-more : {A : Type 0} (a b : ℕ) (xs : List A) → take (a + b) xs ≡ take a xs ++ take b (drop a xs)
take-more zero b xs = let q : zero + b ≡ b = omega arith in rw q refl
take-more (suc a) b [] = let q : suc a + b ≡ suc (a + b) = omega arith in rw q (take-nil b)
take-more (suc a) b (x ∷ xs) =
    let q : suc a + b ≡ suc (a + b) = omega arith in rw q (rw (take-more a b xs) refl)

take-all : {A : Type 0} (n : ℕ) (xs : List A) → length xs ≤ n → take n xs ≡ xs
take-all zero [] h = refl
take-all zero (x ∷ xs) h = absurd (omega (arith, h))
take-all (suc n) [] h = refl
take-all (suc n) (x ∷ xs) h = let q : take n xs ≡ xs = take-all n xs (omega (arith, h)) in rw q refl

module _ {A : Type 0} ⦃e : Entity A⦄ (order : List A → List A) (page_size : ℕ) (p : A → Bool)
    (t : Table A) where
  pages-take :
      (k : ℕ) → pages order page_size p t k ≡ take (k * page_size) (order (Table.list_all p t))
  unfolding Table.list_page
  pages-take zero = let q : zero * page_size ≡ zero = omega arith in rw q refl
  pages-take (suc k) =
      let q : suc k * page_size ≡ k * page_size + page_size = omega arith in
      let i : suc k - 1 ≡ k = omega arith in
      rw (q, i, take-more (k * page_size) page_size (order (Table.list_all p t)), pages-take k) refl

-- The pages of `list`, one after another, are the ordered rows that pass the filter and are not
-- deleted, each once and none left out, as soon as there are pages for the total that every page
-- reports, if ordering keeps the number of rows.
pub pages_cover :
    {A : Type 0} ⦃e : Entity A⦄ (order : List A → List A) (page_size : ℕ) (p : A → Bool)
    (t : Table A) (k page : ℕ)
    → length (order (Table.list_all p t)) ≡ length (Table.list_all p t)
    → (Table.list_page order page page_size p t).0 ≤ k * page_size
    → pages order page_size p t k ≡ order (Table.list_all p t)
unfolding Table.list_page
pages_cover order page_size p t k page l h =
    pages-take order page_size p t k
    ∙ take-all (k * page_size) (order (Table.list_all p t)) (omega (arith, l, h))
