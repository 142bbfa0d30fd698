-- ===== src/Directory/Query/Tests.antt =====
-- The directory at concrete values (packages/directory/src/rank.ts): three entries, two on a page.
use vibefy.Prelude.{
  ℕ, ◌≤◌, true, false, none, some, List, [], ◌∷◌, map, length, ◌≡◌, ◌↔◌, refl, Memᴰ, arith,
}
use vibefy.Prelude.Sort.{sort, insert_sorted}
use vibefy.Prelude.Text.{Text, codes, same_text}
use vibefy.Directory.Types.{DirectoryEntry, DirectoryQuery}
use vibefy.Prelude.Comparing.{Sign, minus}
use vibefy.Directory.Query.{
  Language, page_size_of, fits, matches, words_from, starts_with, includes_text, ordered,
  query_directory,
}
use vibefy.Directory.Query.Pages.{first_pages, pages_hold_everything}
use vibefy.Directory.Query.Placement.{relabel, placement_is_not_for_sale}

-- By the first character.
abbrev by_first : Text → Text → Sign
by_first [] [] = Sign.same
by_first [] (d ∷ t) = Sign.before
by_first (c ∷ s) [] = Sign.after
by_first (c ∷ s) (d ∷ t) = minus c d

abbrev language : Language
language = record { locale_compare = by_first; normalise = λ t. t; is_white = λ c. false }

abbrev entry : Text → ℕ → DirectoryEntry
entry slug score = record {
  slug = slug;
  name = slug;
  certified_origin = codes "https://a.test";
  score = score;
  rubric_version = codes "1.1.0";
  assessed_on = codes "2026";
  dimensions = [];
  tagline = none;
  category = some (codes "tools");
  owner_is_marketing_client = false;
}

abbrev entries : List DirectoryEntry
entries = entry (codes "b") 800 ∷ entry (codes "a") 800 ∷ entry (codes "c") 900 ∷ []

abbrev query : DirectoryQuery
query = record {
  search = some (codes "a");
  category = some (codes "tools");
  sort = none;
  min_score = some 750;
  page = none;
  page_size = some 2;
}

-- The best first, and of two with one score the slug that comes first.
first_page :
    (query_directory language entries query).entries
    ≡ entry (codes "c") 900 ∷ entry (codes "a") 800 ∷ []
unfolding query_directory ordered sort insert_sorted matches words_from starts_with includes_text
    same_text
first_page = refl

three_found : (query_directory language entries query).total ≡ 3
unfolding query_directory ordered sort insert_sorted matches words_from starts_with includes_text
    same_text
three_found = refl

pages_hold_everything_example :
    (1 ≤ page_size_of query)
    × (page_size_of query ≤ 100)
    × (length (first_pages language entries query 2)
        ≡ (query_directory language entries query).total)
    × ((e : DirectoryEntry)
        → Memᴰ e (first_pages language entries query 2)
          ↔ (Memᴰ e entries × (fits language query e ≡ true)))
pages_hold_everything_example =
    pages_hold_everything language entries query 2 (rw three_found (omega arith))

placement_is_not_for_sale_example :
    ((query_directory language (map (relabel (λ e. true)) entries) query).entries
      ≡ map (relabel (λ e. true)) (query_directory language entries query).entries)
    × ((query_directory language (map (relabel (λ e. true)) entries) query).total
        ≡ (query_directory language entries query).total)
placement_is_not_for_sale_example = placement_is_not_for_sale language (λ e. true) entries query
