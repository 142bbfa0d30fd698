-- ===== src/Directory/Query/Placement.antt =====
-- What the order of the directory does not look at (packages/directory/src/rank.ts).
use vibefy.Prelude.{
  ℕ, ◌-◌, ◌*◌, Bool, Option, none, some, List, map, filter, length, length-map, take, drop, ◌≡◌,
  refl, ap, ◌∙◌,
}
use vibefy.Prelude.Text.{Text}
use vibefy.Prelude.Sort.{sort}
use vibefy.Prelude.Mapped.{filter-map, sort-map, take-map, drop-map}
use vibefy.Directory.Types.{DirectoryEntry, DirectoryQuery, score}
use vibefy.Directory.Query.{
  Language, page_size_of, page_of, matches, fits_search, fits_category, fits_score, fits,
  placed_before, ordered, query_directory, or_default,
}

-- An entry whose owner buys marketing services, or buys none.
abbrev pub relabel : (DirectoryEntry → Bool) → DirectoryEntry → DirectoryEntry
relabel client e = record e { owner_is_marketing_client = client e }

module _ (language : Language) (client : DirectoryEntry → Bool) where
  fits_search-relabel :
      (o : Option Text) (e : DirectoryEntry)
      → fits_search language o (relabel client e) ≡ fits_search language o e
  unfolding matches
  fits_search-relabel none e = refl
  fits_search-relabel (some search) e = refl

  fits_category-relabel :
      (o : Option Text) (e : DirectoryEntry)
      → fits_category language o (relabel client e) ≡ fits_category language o e
  fits_category-relabel none e = refl
  fits_category-relabel (some category) e = refl

  fits_score-relabel :
      (o : Option ℕ) (e : DirectoryEntry)
      → fits_score language o (relabel client e) ≡ fits_score language o e
  fits_score-relabel none e = refl
  fits_score-relabel (some least) e = refl

  fits-relabel :
      (query : DirectoryQuery) (e : DirectoryEntry)
      → fits language query (relabel client e) ≡ fits language query e
  fits-relabel query e =
      rw
        (
          fits_search-relabel query.search e,
          fits_category-relabel query.category e,
          fits_score-relabel query.min_score e,
        )
        refl

  -- Whoever becomes a client of the marketing services, or ceases to be one, every search shows the
  -- same entries on the same pages in the same order, but for that label on them.
  pub placement_is_not_for_sale :
      (entries : List DirectoryEntry) (query : DirectoryQuery)
      → let relabelled = query_directory language (map (relabel client) entries) query in
        let page = query_directory language entries query in
        (relabelled.entries ≡ map (relabel client) page.entries) × (relabelled.total ≡ page.total)
  unfolding query_directory ordered
  placement_is_not_for_sale entries query =
      let f = relabel client in
      let key = or_default score query.sort in
      let kept = filter (fits language query) entries in
      let sorted = sort (placed_before language key) kept in
      let order : ordered language query (map f entries) ≡ map f sorted =
        ap (sort (placed_before language key))
          (filter-map f (fits language query) (fits-relabel query) entries)
        ∙ sort-map f (placed_before language key) (λ a b. refl) kept in
      let start = (page_of query - 1) * page_size_of query in
      (
        ap (λ (ys : List DirectoryEntry). take (page_size_of query) (drop start ys)) order
            ∙ ap (take (page_size_of query)) (drop-map f start sorted)
            ∙ take-map f (page_size_of query) (drop start sorted),
        ap length order ∙ length-map f sorted,
      )
