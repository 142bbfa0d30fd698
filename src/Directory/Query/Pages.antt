-- ===== src/Directory/Query/Pages.antt =====
-- The pages of the directory together (packages/directory/src/rank.ts).
use native.Mathlib.Nat.{zero-mul, suc-mul}
use vibefy.Prelude.{
  ℕ, zero, suc, ◌+◌, ◌-◌, ◌*◌, ◌≤◌, true, some, List, [], ◌∷◌, ◌++◌, length, take, drop, filter,
  min, max, ◌≡◌, ◌↔◌, refl, sym, ap, ◌∙◌, Memᴰ, mem_filter→, mem_filter←, arith,
}
use vibefy.Prelude.Sort.{mem_sort→, mem_sort←}
use vibefy.Directory.Types.{DirectoryEntry, DirectoryQuery, score}
use vibefy.Directory.Query.{
  Language, page_size_of, fits, placed_before, ordered, query_directory, or_default,
}

take-none {ℓ} : {A : Type ℓ} (n : ℕ) → take {A = A} n [] ≡ []
take-none zero = refl
take-none (suc n) = refl

take-take {ℓ} :
    {A : Type ℓ} (a b : ℕ) (xs : List A) → take a xs ++ take b (drop a xs) ≡ take (a + b) xs
take-take zero b xs = ap (λ (n : ℕ). take n xs) (omega arith)
take-take (suc a) b [] = take-none b ∙ sym (take-none (suc a + b))
take-take (suc a) b (x ∷ xs) =
    ap (λ (ys : List _). x ∷ ys) (take-take a b xs) ∙ ap (λ (n : ℕ). take n (x ∷ xs)) (the_same a b)
  where
    the_same : (a b : ℕ) → suc (a + b) ≡ suc a + b
    the_same a b = omega arith

take-whole {ℓ} : {A : Type ℓ} (n : ℕ) (xs : List A) → length xs ≤ n → take n xs ≡ xs
take-whole n [] h = take-none n
take-whole zero (x ∷ xs) h = absurd (omega (arith, h))
take-whole (suc n) (x ∷ xs) h = ap (λ (ys : List _). x ∷ ys) (take-whole n xs (omega (arith, h)))

module _ (language : Language) (entries : List DirectoryEntry) (query : DirectoryQuery) where
  abbrev page_entries : ℕ → List DirectoryEntry
  page_entries n = (query_directory language entries (record query { page = some n })).entries

  -- The first pages of a search, one after the other.
  pub first_pages : ℕ → List DirectoryEntry
  first_pages zero = []
  first_pages (suc n) = first_pages n ++ page_entries (suc n)

  first_pages-take :
      (n : ℕ) → first_pages n ≡ take (n * page_size_of query) (ordered language query entries)
  unfolding first_pages query_directory ordered
  first_pages-take zero =
      ap (λ (m : ℕ). take m (ordered language query entries)) (sym (zero-mul (page_size_of query)))
  first_pages-take (suc n) =
      let size = page_size_of query in
      let found = ordered language query entries in
      ap (λ (ys : List DirectoryEntry). ys ++ take size (drop ((max (suc n) 1 - 1) * size) found))
        (first_pages-take n)
      ∙ ap (λ (m : ℕ). take (n * size) found ++ take size (drop (m * size) found)) (back n)
      ∙ take-take (n * size) size found
      ∙ ap (λ (m : ℕ). take m found) (sym (suc-mul n size))
    where
      back : (n : ℕ) → max (suc n) 1 - 1 ≡ n
      back n = omega arith

  ordered-mem :
      (e : DirectoryEntry)
      → Memᴰ e (ordered language query entries) ↔ (Memᴰ e entries × (fits language query e ≡ true))
  unfolding ordered
  ordered-mem e =
      let key = or_default score query.sort in
      let placed = placed_before language key in
      (
        λ m.
            mem_filter→ (fits language query) entries
              (mem_sort→ placed (filter (fits language query) entries) m),
        λ (m, holds). mem_sort← placed (mem_filter← (fits language query) m holds),
      )

  -- Every page holds from one to a hundred places, and the pages of a search, as many as its total
  -- needs, hold one after the other exactly the entries that fit it and no more of them than the total
  -- that each page states: none is lost between two pages, and none is shown on both.
  pub pages_hold_everything :
      (n : ℕ)
      → let total = (query_directory language entries query).total in
        total ≤ n * page_size_of query
        → (1 ≤ page_size_of query)
          × (page_size_of query ≤ 100)
          × (length (first_pages n) ≡ total)
          × ((e : DirectoryEntry)
              → Memᴰ e (first_pages n) ↔ (Memᴰ e entries × (fits language query e ≡ true)))
  unfolding query_directory
  pages_hold_everything n enough =
      let whole =
        first_pages-take n
        ∙ take-whole (n * page_size_of query) (ordered language query entries) enough in
      (
        size_above (or_default 24 query.page_size),
        size_below (or_default 24 query.page_size),
        ap length whole,
        λ e. rw whole (ordered-mem e),
      )
    where
      size_above : (s : ℕ) → 1 ≤ min (max s 1) 100
      size_above s = omega arith

      size_below : (s : ℕ) → min (max s 1) 100 ≤ 100
      size_below s = omega arith
