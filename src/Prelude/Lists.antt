-- ===== src/Prelude/Lists.antt =====
-- Lists measured by native numbers and searched by Boolean tests, under the library's names.
use Prim.Native.Nat.{ℕ, zero, suc}
use mathlib.Core.Path.{◌≡◌, refl, sym, ap, ◌∙◌}
use mathlib.Core.Logic.{◌⊎◌, ◌↔◌, inl, inr}
use mathlib.Core.Bool.{Bool, true, false, ◌&&◌, ◌||◌}
use mathlib.Core.List.{List, [], ◌∷◌, ◌++◌, map, Memᴰ, Sublistᴰ}
use mathlib.Core.Option.{Option, none, some}
use native.Mathlib.Omega.{arith}
use vibefy.Prelude.Tests.{if◌then◌else◌, Bool-cases, and_true}
use vibefy.Prelude.Equality.{Eq, ◌==◌, eq_refl, eq_sound}

module _ {ℓ} {A : Type ℓ} where
  abbrev pub length : List A → ℕ
  length [] = 0
  length (x ∷ xs) = suc (length xs)

  abbrev pub is_empty : List A → Bool
  is_empty [] = true
  is_empty (x ∷ xs) = false

  abbrev pub filter : (A → Bool) → List A → List A
  filter p [] = []
  filter p (x ∷ xs) = let rest = filter p xs in if p x then x ∷ rest else rest

  abbrev pub any : (A → Bool) → List A → Bool
  any p [] = false
  any p (x ∷ xs) = p x || any p xs

  abbrev pub all : (A → Bool) → List A → Bool
  all p [] = true
  all p (x ∷ xs) = p x && all p xs

  abbrev pub find? : (A → Bool) → List A → Option A
  find? p [] = none
  find? p (x ∷ xs) = let rest = find? p xs in if p x then some x else rest

  abbrev pub take : ℕ → List A → List A
  take zero xs = []
  take (suc n) [] = []
  take (suc n) (x ∷ xs) = x ∷ take n xs

  abbrev pub drop : ℕ → List A → List A
  drop zero xs = xs
  drop (suc n) [] = []
  drop (suc n) (x ∷ xs) = drop n xs

  -- What holds of the head and of every member of the tail holds of every member.
  pub mem_cons_elim {κ} :
      (P : A → Type κ) {x : A} {xs : List A}
      → P x
      → ((a : A) → Memᴰ a xs → P a)
      → (a : A) → Memᴰ a (x ∷ xs)
      → P a
  mem_cons_elim P here there a (Memᴰ.head q) = rw q here
  mem_cons_elim P here there a (Memᴰ.tail m) = there a m

  -- Membership of a filtered list is membership and the test.
  pub mem_filter→ :
      {a : A} (p : A → Bool) (xs : List A) → Memᴰ a (filter p xs) → Memᴰ a xs × (p a ≡ true)
  mem_filter→ p [] h = elim h [ ]
  mem_filter→ {a} p (x ∷ xs) h = elim (Bool-cases (p x)) [
    | inl kept ↦ at_head kept (mem_filter→ p xs) (rw kept at h)
    | inr dropped ↦
        let (there, holds) = mem_filter→ p xs (rw dropped at h) in (Memᴰ.tail there, holds)
  ]
    where
      at_head :
          p x ≡ true
          → (Memᴰ a (filter p xs) → Memᴰ a xs × (p a ≡ true))
          → Memᴰ a (x ∷ filter p xs)
          → Memᴰ a (x ∷ xs) × (p a ≡ true)
      at_head e rest (Memᴰ.head q) = (Memᴰ.head q, rw q e)
      at_head e rest (Memᴰ.tail m) = let (there, holds) = rest m in (Memᴰ.tail there, holds)

  pub mem_filter← :
      {a : A} (p : A → Bool) {xs : List A} → Memᴰ a xs → p a ≡ true → Memᴰ a (filter p xs)
  mem_filter← p (Memᴰ.head {x = x} q) h = rw (rw q at h) (Memᴰ.head q)
  mem_filter← p (Memᴰ.tail {x = x} m) h = elim (Bool-cases (p x)) [
    | inl kept ↦ rw kept (Memᴰ.tail (mem_filter← p m h))
    | inr dropped ↦ rw dropped (mem_filter← p m h)
  ]

  pub any_sound :
      (p : A → Bool) (xs : List A) → any p xs ≡ true → (a : A) × Memᴰ a xs × (p a ≡ true)
  any_sound p [] h = cc
  any_sound p (x ∷ xs) h = elim (Bool-cases (p x)) [
    | inl here ↦ (x, Memᴰ.head refl, here)
    | inr other ↦ let (a, m, e) = any_sound p xs (rw other at h) in (a, Memᴰ.tail m, e)
  ]

  pub any_complete : {a : A} (p : A → Bool) {xs : List A} → Memᴰ a xs → p a ≡ true → any p xs ≡ true
  any_complete p (Memᴰ.head q) h = rw (rw q at h)
  any_complete p (Memᴰ.tail {x = x} {xs = xs} m) h = ground (arith, any_complete p m h)

  pub none_such :
      (p : A → Bool) (xs : List A) → any p xs ≡ false → (a : A) → Memᴰ a xs → p a ≡ false
  none_such p xs h a m = elim (Bool-cases (p a)) [
    | inl holds ↦ cc (h, any_complete p m holds)
    | inr other ↦ other
  ]

  pub any_none :
      (p : A → Bool) (xs : List A) → ((a : A) → Memᴰ a xs → p a ≡ false) → any p xs ≡ false
  any_none p [] h = refl
  any_none p (x ∷ xs) h = rw (h x (Memᴰ.head refl), any_none p xs (λ a m. h a (Memᴰ.tail m))) refl

  pub mem_take→ : {a : A} (n : ℕ) (xs : List A) → Memᴰ a (take n xs) → Memᴰ a xs
  mem_take→ zero xs m = elim m [ ]
  mem_take→ (suc n) [] m = m
  mem_take→ (suc n) (x ∷ xs) (Memᴰ.head q) = Memᴰ.head q
  mem_take→ (suc n) (x ∷ xs) (Memᴰ.tail m) = Memᴰ.tail (mem_take→ n xs m)

  pub all_sound : {a : A} (p : A → Bool) {xs : List A} → Memᴰ a xs → all p xs ≡ true → p a ≡ true
  all_sound p (Memᴰ.head {x = x} q) h = rw q (ground arith)
  all_sound p (Memᴰ.tail {x = x} {xs = xs} m) h = all_sound p m (and_true (p x) (all p xs) h).1

  pub find?_sound :
      {a : A} (p : A → Bool) (xs : List A) → find? p xs ≡ some a → Memᴰ a xs × (p a ≡ true)
  find?_sound p [] h = cc
  find?_sound {a} p (x ∷ xs) h = elim (Bool-cases (p x)) [
    | inl here ↦ let e : x ≡ a = cc (rw here at h) in (Memᴰ.head (sym e), rw (← e) here)
    | inr other ↦ let (m, e) = find?_sound p xs (rw other at h) in (Memᴰ.tail m, e)
  ]

  pub find?-none :
      {a : A} (p : A → Bool) {xs : List A} → find? p xs ≡ none → Memᴰ a xs → p a ≡ false
  find?-none p h (Memᴰ.head {x = x} q) = rw q (ground arith)
  find?-none p h (Memᴰ.tail {x = x} {xs = xs} m) = find?-none p (ground arith) m

  pub mem_map→ {κ} :
      {B : Type κ} {b : B} (f : A → B) (xs : List A)
      → Memᴰ b (map f xs)
      → (a : A) × Memᴰ a xs × (b ≡ f a)
  mem_map→ f [] h = elim h [ ]
  mem_map→ f (x ∷ xs) (Memᴰ.head q) = (x, Memᴰ.head refl, q)
  mem_map→ f (x ∷ xs) (Memᴰ.tail m) = let (a, n, e) = mem_map→ f xs m in (a, Memᴰ.tail n, e)

  pub mem_map← {κ} :
      {B : Type κ} {a : A} (f : A → B) {xs : List A} → Memᴰ a xs → Memᴰ (f a) (map f xs)
  mem_map← f (Memᴰ.head q) = Memᴰ.head (ap f q)
  mem_map← f (Memᴰ.tail m) = Memᴰ.tail (mem_map← f m)

  pub mem_append_left : {a : A} {xs : List A} (ys : List A) → Memᴰ a xs → Memᴰ a (xs ++ ys)
  mem_append_left ys (Memᴰ.head q) = Memᴰ.head q
  mem_append_left ys (Memᴰ.tail m) = Memᴰ.tail (mem_append_left ys m)

  pub mem_append_right : {a : A} (xs : List A) {ys : List A} → Memᴰ a ys → Memᴰ a (xs ++ ys)
  mem_append_right [] m = m
  mem_append_right (x ∷ xs) m = Memᴰ.tail (mem_append_right xs m)

  pub mem_append→ : {a : A} (xs : List A) {ys : List A} → Memᴰ a (xs ++ ys) → Memᴰ a xs ⊎ Memᴰ a ys
  mem_append→ [] m = inr m
  mem_append→ (x ∷ xs) (Memᴰ.head q) = inl (Memᴰ.head q)
  mem_append→ (x ∷ xs) (Memᴰ.tail m) = elim (mem_append→ xs m) [
    | inl l ↦ inl (Memᴰ.tail l)
    | inr r ↦ inr r
  ]

  pub Sublistᴰ-filter :
      {xs ys : List A} (p : A → Bool) → Sublistᴰ xs ys → Sublistᴰ (filter p xs) (filter p ys)
  Sublistᴰ-filter p Sublistᴰ.slnil = Sublistᴰ.slnil
  Sublistᴰ-filter p (Sublistᴰ.cons {a = y} w) = elim (Bool-cases (p y)) [
    | inl kept ↦ rw kept (Sublistᴰ.cons (Sublistᴰ-filter p w))
    | inr dropped ↦ rw dropped (Sublistᴰ-filter p w)
  ]
  Sublistᴰ-filter p (Sublistᴰ.cons-cons {a = x} {b = y} q w) = elim (Bool-cases (p y)) [
    | inl kept ↦ rw (kept, ap p q ∙ kept) (Sublistᴰ.cons-cons q (Sublistᴰ-filter p w))
    | inr dropped ↦ rw (dropped, ap p q ∙ dropped) (Sublistᴰ-filter p w)
  ]

  pub any_mono :
      {xs ys : List A} (p : A → Bool) → Sublistᴰ xs ys → any p xs ≡ true → any p ys ≡ true
  any_mono p Sublistᴰ.slnil h = h
  any_mono p (Sublistᴰ.cons {a = y} {l₂ = ys} w) h = ground (arith, any_mono p w h)
  any_mono p (Sublistᴰ.cons-cons {a = x} {b = y} {l₁ = xs} {l₂ = ys} q w) h =
      elim (Bool-cases (p x)) [
        | inl here ↦ ground (arith, ap p q)
        | inr other ↦ ground (arith, any_mono p w (rw other at h))
      ]

  pub is_empty_iff : (xs : List A) → (is_empty xs ≡ true) ↔ (xs ≡ [])
  is_empty_iff xs = ground arith

module _ {ℓ} {A : Type ℓ} ⦃e : Eq A⦄ where
  -- `Array.prototype.includes`.
  abbrev pub includes : List A → A → Bool
  includes xs a = any (λ x. x == a) xs

  pub includes_sound : (xs : List A) (a : A) → includes xs a ≡ true → Memᴰ a xs
  includes_sound xs a h = let (x, m, q) = any_sound (λ x. x == a) xs h in rw (← eq_sound x a q) m

  pub includes_complete : {xs : List A} {a : A} → Memᴰ a xs → includes xs a ≡ true
  includes_complete {a = a} m = any_complete (λ x. x == a) m (eq_refl a)

pub length-map {ℓ κ} :
    {A : Type ℓ} {B : Type κ} (f : A → B) (xs : List A) → length (map f xs) ≡ length xs
length-map f [] = refl
length-map f (x ∷ xs) = ap suc (length-map f xs)
