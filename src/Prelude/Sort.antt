-- ===== src/Prelude/Sort.antt =====
-- `Array.prototype.sort`: a stable sort by a comparison, here by insertion. `before a b` says that a
-- comes strictly before b, which is `compare(a, b) < 0`.
use Prim.Native.Nat.{ℕ, ◌≤◌}
use mathlib.Core.Path.{◌≡◌, ap}
use mathlib.Core.Bool.{Bool}
use mathlib.Core.List.{List, [], ◌∷◌, Memᴰ}
use mathlib.Core.Logic.{◌⊎◌, inl, inr}
use native.Mathlib.Omega.{arith}
use vibefy.Prelude.Tests.{if◌then◌else◌, Bool-cases, ltb, ltb→lt, ltb-false}
use vibefy.Prelude.Lists.{mem_cons_elim}

module _ {ℓ} {A : Type ℓ} (before : A → A → Bool) where
  -- Put in after the items that do not come after it, so that equal items keep their order.
  unfoldable pub insert_sorted : A → List A → List A
  insert_sorted a [] = a ∷ []
  insert_sorted a (x ∷ xs) = if before x a then x ∷ insert_sorted a xs else a ∷ x ∷ xs

  unfoldable pub sort : List A → List A
  sort [] = []
  sort (x ∷ xs) = insert_sorted x (sort xs)

  pub mem_insert→ :
      {a : A} (x : A) (xs : List A) → Memᴰ a (insert_sorted x xs) → (a ≡ x) ⊎ Memᴰ a xs
  unfolding insert_sorted
  mem_insert→ x [] (Memᴰ.head q) = inl q
  mem_insert→ x [] (Memᴰ.tail m) = inr m
  mem_insert→ {a} x (y ∷ xs) m = elim (Bool-cases (before y x)) [
    | inl later ↦ deeper (mem_insert→ x xs) (rw (later, insert_sorted) at m)
    | inr here ↦ split (rw (here, insert_sorted) at m)
  ]
    where
      deeper :
          (Memᴰ a (insert_sorted x xs) → (a ≡ x) ⊎ Memᴰ a xs)
          → Memᴰ a (y ∷ insert_sorted x xs)
          → (a ≡ x) ⊎ Memᴰ a (y ∷ xs)
      deeper rest (Memᴰ.head q) = inr (Memᴰ.head q)
      deeper rest (Memᴰ.tail n) = elim (rest n) [ inl q ↦ inl q | inr k ↦ inr (Memᴰ.tail k) ]

      split : Memᴰ a (x ∷ y ∷ xs) → (a ≡ x) ⊎ Memᴰ a (y ∷ xs)
      split (Memᴰ.head q) = inl q
      split (Memᴰ.tail n) = inr n

  mem_insert← : {a : A} (x : A) (xs : List A) → (a ≡ x) ⊎ Memᴰ a xs → Memᴰ a (insert_sorted x xs)
  unfolding insert_sorted
  mem_insert← x [] (inl q) = Memᴰ.head q
  mem_insert← x [] (inr m) = elim m [ ]
  mem_insert← {a} x (y ∷ xs) (inl q) = elim (Bool-cases (before y x)) [
    | inl later ↦ rw (later, insert_sorted) (Memᴰ.tail (mem_insert← x xs (inl q)))
    | inr here ↦ rw (here, insert_sorted) (Memᴰ.head q)
  ]
  mem_insert← {a} x (y ∷ xs) (inr (Memᴰ.head q)) = elim (Bool-cases (before y x)) [
    | inl later ↦ rw (later, insert_sorted) (Memᴰ.head q)
    | inr here ↦ rw (here, insert_sorted) (Memᴰ.tail (Memᴰ.head q))
  ]
  mem_insert← {a} x (y ∷ xs) (inr (Memᴰ.tail m)) = elim (Bool-cases (before y x)) [
    | inl later ↦ rw (later, insert_sorted) (Memᴰ.tail (mem_insert← x xs (inr m)))
    | inr here ↦ rw (here, insert_sorted) (Memᴰ.tail (Memᴰ.tail m))
  ]

  -- Sorting keeps the members.
  pub mem_sort→ : {a : A} (xs : List A) → Memᴰ a (sort xs) → Memᴰ a xs
  unfolding sort
  mem_sort→ [] m = m
  mem_sort→ (x ∷ xs) m = elim (mem_insert→ x (sort xs) m) [
    | inl q ↦ Memᴰ.head q
    | inr n ↦ Memᴰ.tail (mem_sort→ xs n)
  ]

  pub mem_sort← : {a : A} {xs : List A} → Memᴰ a xs → Memᴰ a (sort xs)
  unfolding sort
  mem_sort← (Memᴰ.head {x = x} {xs = xs} q) = mem_insert← x (sort xs) (inl q)
  mem_sort← (Memᴰ.tail {x = x} {xs = xs} m) = mem_insert← x (sort xs) (inr (mem_sort← m))

module _ {ℓ} {A : Type ℓ} (rank : A → ℕ) where
  abbrev pub by_rank : A → A → Bool
  by_rank a b = ltb (rank a) (rank b)

  -- The first item has the lowest rank.
  abbrev pub HeadLeast : List A → Type ℓ
  HeadLeast [] = Unit
  HeadLeast (x ∷ xs) = (a : A) → Memᴰ a xs → rank x ≤ rank a

  insert-HeadLeast : (x : A) (xs : List A) → HeadLeast xs → HeadLeast (insert_sorted by_rank x xs)
  unfolding insert_sorted
  insert-HeadLeast x [] h = λ a i. elim i [ ]
  insert-HeadLeast x (y ∷ xs) h = elim (Bool-cases (ltb (rank y) (rank x))) [
    | inl later ↦
        rw (later, insert_sorted)
          (λ a i. elim (mem_insert→ by_rank x xs i) [
            | inl q ↦ omega (arith, ap rank q, ltb→lt _ _ later)
            | inr j ↦ h a j
          ])
    | inr here ↦
        let least : rank x ≤ rank y = ltb-false (rank y) (rank x) here in
        rw (here, insert_sorted)
          (mem_cons_elim (λ a. rank x ≤ rank a) least (λ a i. let le = h a i in omega arith))
  ]

  pub sort-HeadLeast : (xs : List A) → HeadLeast (sort by_rank xs)
  unfolding sort
  sort-HeadLeast [] = tt
  sort-HeadLeast (x ∷ xs) = insert-HeadLeast x (sort by_rank xs) (sort-HeadLeast xs)
