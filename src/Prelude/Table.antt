-- ===== src/Prelude/Table.antt =====
-- The statements of a database on a table, as a list of rows in the order of their insertion.
use mathlib.Core.Path.{◌≡◌, refl, ◌∙◌}
use mathlib.Core.Bool.{Bool, true, false, ◌||◌}
use mathlib.Core.List.{List, [], ◌∷◌, ◌++◌, map, append-nil}
use mathlib.Core.Logic.{inl, inr}
use native.Mathlib.Omega.{arith}
use vibefy.Prelude.Tests.{if◌then◌else◌, Bool-cases}
use vibefy.Prelude.Lists.{any, filter, length}

module _ {ℓ} {A : Type ℓ} where
  -- `update … set … where …`, on one row and on the table.
  abbrev pub set_if : (A → A) → (A → Bool) → A → A
  set_if set holds r = if holds r then set r else r

  abbrev pub update_where : (A → A) → (A → Bool) → List A → List A
  update_where set holds rows = map (set_if set holds) rows

  -- `insert … on conflict (…) do update set …`, by the test for the conflict.
  abbrev pub upsert : (A → A) → (A → Bool) → A → List A → List A
  upsert set conflicts row rows =
      if any conflicts rows then update_where set conflicts rows else rows ++ row ∷ []

  pub set_if-set :
      (set : A → A) (holds : A → Bool) (r : A) → holds r ≡ true → set_if set holds r ≡ set r
  set_if-set set holds r h = rw h refl

  -- What an update does not set stays.
  pub set_if-field {κ} :
      {B : Type κ} (f : A → B) (set : A → A) (holds : A → Bool) (r : A)
      → ((x : A) → f (set x) ≡ f x)
      → f (set_if set holds r) ≡ f r
  set_if-field f set holds r keeps = elim (Bool-cases (holds r)) [
    | inl sets ↦ rw sets (keeps r)
    | inr leaves ↦ rw leaves refl
  ]

  pub any-append : (p : A → Bool) (xs ys : List A) → any p (xs ++ ys) ≡ (any p xs || any p ys)
  any-append p [] ys = refl
  any-append p (x ∷ xs) ys = ground (arith, any-append p xs ys)

  -- A test that an update does not change holds of a row afterwards where it did before.
  pub any-update_where :
      (p : A → Bool) (set : A → A) (holds : A → Bool) (rows : List A)
      → ((r : A) → p (set r) ≡ p r)
      → any p (update_where set holds rows) ≡ any p rows
  any-update_where p set holds [] keep = refl
  any-update_where p set holds (r ∷ rows) keep = elim (Bool-cases (holds r)) [
    | inl covers ↦ rw (covers, keep r, any-update_where p set holds rows keep) refl
    | inr others ↦ rw (others, any-update_where p set holds rows keep) refl
  ]

  pub filter-append :
      (p : A → Bool) (xs ys : List A) → filter p (xs ++ ys) ≡ filter p xs ++ filter p ys
  filter-append p [] ys = refl
  filter-append p (x ∷ xs) ys = elim (Bool-cases (p x)) [
    | inl kept ↦ rw (kept, filter-append p xs ys) refl
    | inr dropped ↦ rw (dropped, filter-append p xs ys) refl
  ]

  -- Rows that an update does not reach, and whose update stays out of reach, are as they were.
  pub filter-update_where :
      (p : A → Bool) (set : A → A) (holds : A → Bool) (rows : List A)
      → ((r : A) → p (set r) ≡ p r)
      → ((r : A) → holds r ≡ true → p r ≡ false)
      → filter p (update_where set holds rows) ≡ filter p rows
  filter-update_where p set holds [] keep apart = refl
  filter-update_where p set holds (r ∷ rows) keep apart = elim (Bool-cases (holds r)) [
    | inl reached ↦
        rw (reached, keep r, apart r reached, filter-update_where p set holds rows keep apart) refl
    | inr spared ↦ rw (spared, filter-update_where p set holds rows keep apart) refl
  ]

  pub filter-none : (p : A → Bool) (rows : List A) → any p rows ≡ false → filter p rows ≡ []
  filter-none p [] h = refl
  filter-none p (r ∷ rows) h = ground (arith, filter-none p rows)

  -- An update that does not change a test does not change how many rows pass it.
  pub length-filter-update_where :
      (p : A → Bool) (set : A → A) (holds : A → Bool) (rows : List A)
      → ((r : A) → p (set r) ≡ p r)
      → length (filter p (update_where set holds rows)) ≡ length (filter p rows)
  length-filter-update_where p set holds [] keep = refl
  length-filter-update_where p set holds (r ∷ rows) keep =
      let rest = length-filter-update_where p set holds rows keep in
      elim (Bool-cases (p r)) [
        | inl kept ↦ elim (Bool-cases (holds r)) [
          | inl reached ↦ rw (reached, keep r, kept) (omega (arith, rest))
          | inr spared ↦ rw (spared, kept) (omega (arith, rest))
        ]
        | inr dropped ↦ elim (Bool-cases (holds r)) [
          | inl reached ↦ rw (reached, keep r, dropped) rest
          | inr spared ↦ rw (spared, dropped) rest
        ]
      ]

  -- A row that fails the test, put behind the others, is not seen among those that pass it.
  pub filter-snoc :
      (p : A → Bool) (rows : List A) (row : A)
      → p row ≡ false
      → filter p (rows ++ row ∷ []) ≡ filter p rows
  filter-snoc p rows row h = filter-append p rows (row ∷ []) ∙ rw h (append-nil (filter p rows))

  pub filter-upsert :
      (p : A → Bool) (set : A → A) (conflicts : A → Bool) (row : A) (rows : List A)
      → ((r : A) → p (set r) ≡ p r)
      → ((r : A) → conflicts r ≡ true → p r ≡ false)
      → p row ≡ false
      → filter p (upsert set conflicts row rows) ≡ filter p rows
  filter-upsert p set conflicts row rows keep apart h = elim (Bool-cases (any conflicts rows)) [
    | inl there ↦ rw there (filter-update_where p set conflicts rows keep apart)
    | inr absent ↦ rw absent (filter-snoc p rows row h)
  ]
