-- ===== src/Prelude/Dict.antt =====
-- A JavaScript `Map`: an association list in insertion order. Setting a key that is there keeps its
-- place.
use mathlib.Core.Path.{◌≡◌, refl, sym, ap, ◌∙◌}
use mathlib.Core.Logic.{inl, inr}
use mathlib.Core.Option.{Option, none, some}
use mathlib.Core.List.{List, [], ◌∷◌, Memᴰ}
use native.Mathlib.Omega.{arith}
use vibefy.Prelude.Tests.{if◌then◌else◌, Bool-cases}
use vibefy.Prelude.Equality.{Eq, ◌==◌, eq_sound}

module _ {ℓ κ} {K : Type ℓ} {V : Type κ} ⦃e : Eq K⦄ where
  unfoldable pub insert : K → V → List (K × V) → List (K × V)
  insert key value [] = (key, value) ∷ []
  insert key value ((first, old) ∷ rest) =
      if first == key then (key, value) ∷ rest else (first, old) ∷ insert key value rest

  -- `new Map(entries)` on top of a map.
  unfoldable pub insert_all : List (K × V) → List (K × V) → List (K × V)
  insert_all [] m = m
  insert_all ((k, v) ∷ rest) m = insert_all rest (insert k v m)

  unfoldable pub lookup : K → List (K × V) → Option V
  lookup key [] = none
  lookup key ((first, value) ∷ rest) = if first == key then some value else lookup key rest

  -- What a key finds after another was set.
  pub lookup-insert :
      (set sought : K) (value : V) (m : List (K × V))
      → lookup sought (insert set value m) ≡ (if set == sought then some value else lookup sought m)
  unfolding lookup insert
  lookup-insert set sought value [] = refl
  lookup-insert set sought value ((first, old) ∷ rest) = ground (
    arith,
    e.test_iff set sought,
    e.test_iff first set,
    e.test_iff first sought,
    lookup-insert set sought value rest,
  )

  -- A key that is found stands in the list with its value.
  pub mem_of_lookup : {k : K} {v : V} (m : List (K × V)) → lookup k m ≡ some v → Memᴰ (k, v) m
  unfolding lookup
  mem_of_lookup [] h = cc
  mem_of_lookup {k} {v} ((j, w) ∷ m) h = elim (Bool-cases (j == k)) [
    | inl here ↦ Memᴰ.head (pair_path (sym (eq_sound j k here)) (cc (rw (here, lookup) at h)))
    | inr other ↦ Memᴰ.tail (mem_of_lookup m (rw (other, lookup) at h))
  ]
    where
      pair_path : {a b : K} {x y : V} → a ≡ b → y ≡ x → ◌≡◌ {A = K × V} (a, x) (b, y)
      pair_path p q = λ i. (p i, sym q i)

  -- No key stands twice.
  abbrev pub HasDistinctKeys : List (K × V) → Type κ
  HasDistinctKeys [] = Unit
  HasDistinctKeys ((k, v) ∷ m) = (lookup k m ≡ none) × HasDistinctKeys m

  pub insert-HasDistinctKeys :
      (k : K) (v : V) (m : List (K × V)) → HasDistinctKeys m → HasDistinctKeys (insert k v m)
  unfolding insert
  insert-HasDistinctKeys k v [] h = (unfold lookup in refl, tt)
  insert-HasDistinctKeys k v ((j, w) ∷ m) (absent, h) = elim (Bool-cases (j == k)) [
    | inl same ↦ rw (same, insert) (rw (← eq_sound j k same) absent, h)
    | inr other ↦
        rw (other, insert)
          (
            lookup-insert k j v m ∙ ground (arith, e.test_iff k j, e.test_iff j k, absent, other),
            insert-HasDistinctKeys k v m h,
          )
  ]

  -- With distinct keys, an entry is what its key finds.
  pub lookup_of_mem :
      {k : K} {v : V} (m : List (K × V)) → HasDistinctKeys m → Memᴰ (k, v) m → lookup k m ≡ some v
  unfolding lookup
  lookup_of_mem [] h i = elim i [ ]
  lookup_of_mem {k} {v} ((j, w) ∷ m) (absent, h) i = split i (lookup_of_mem m h)
    where
      split :
          Memᴰ (k, v) ((j, w) ∷ m)
          → (Memᴰ (k, v) m → lookup k m ≡ some v)
          → (if j == k then some w else lookup k m) ≡ some v
      split (Memᴰ.head q) rest =
          rw ((e.test_iff j k).1 (sym (ap (λ (x : K × V). x.0) q)))
            (ap some (sym (ap (λ (x : K × V). x.1) q)))
      split (Memᴰ.tail n) rest = elim (Bool-cases (j == k)) [
        | inl same ↦ cc (rest n, absent, ap (λ x. lookup x m) (eq_sound j k same))
        | inr other ↦ rw other (rest n)
      ]
