-- ===== src/Prelude/Mapped.antt =====
-- A map that the other operations on lists do not notice.
use Prim.Native.Nat.{ℕ, zero, suc}
use mathlib.Core.Path.{◌≡◌, refl, ap, ◌∙◌}
use mathlib.Core.Bool.{Bool}
use mathlib.Core.Logic.{inl, inr}
use mathlib.Core.List.{List, [], ◌∷◌, map}
use vibefy.Prelude.Tests.{Bool-cases}
use vibefy.Prelude.Lists.{filter, take, drop}
use vibefy.Prelude.Sort.{sort, insert_sorted}

module _ {A : Type 0} (f : A → A) where
  pub filter-map :
      (p : A → Bool)
      → ((a : A) → p (f a) ≡ p a)
      → (xs : List A) → filter p (map f xs) ≡ map f (filter p xs)
  filter-map p same [] = refl
  filter-map p same (x ∷ xs) = elim (Bool-cases (p x)) [
    | inl kept ↦ rw (same x, kept) (ap (λ (ys : List A). f x ∷ ys) (filter-map p same xs))
    | inr dropped ↦ rw (same x, dropped) (filter-map p same xs)
  ]

  module _ (before : A → A → Bool) (same : (a b : A) → before (f a) (f b) ≡ before a b) where
    insert_sorted-map :
        (a : A) (xs : List A)
        → insert_sorted before (f a) (map f xs) ≡ map f (insert_sorted before a xs)
    unfolding insert_sorted
    insert_sorted-map a [] = refl
    insert_sorted-map a (x ∷ xs) = elim (Bool-cases (before x a)) [
      | inl later ↦ rw (same x a, later) (ap (λ (ys : List A). f x ∷ ys) (insert_sorted-map a xs))
      | inr here ↦ rw (same x a, here) refl
    ]

    pub sort-map : (xs : List A) → sort before (map f xs) ≡ map f (sort before xs)
    unfolding sort
    sort-map [] = refl
    sort-map (x ∷ xs) =
        ap (insert_sorted before (f x)) (sort-map xs) ∙ insert_sorted-map x (sort before xs)

  pub take-map : (n : ℕ) (xs : List A) → take n (map f xs) ≡ map f (take n xs)
  take-map zero xs = refl
  take-map (suc n) [] = refl
  take-map (suc n) (x ∷ xs) = ap (λ (ys : List A). f x ∷ ys) (take-map n xs)

  pub drop-map : (n : ℕ) (xs : List A) → drop n (map f xs) ≡ map f (drop n xs)
  drop-map zero xs = refl
  drop-map (suc n) [] = refl
  drop-map (suc n) (x ∷ xs) = drop-map n xs
