-- ===== src/Directory/Query.antt =====
-- packages/directory/src/rank.ts: searching and ordering the directory. `localeCompare`, the folding of
-- case and accents (`normalise`) and the test for white space are parameters. The key of an order is
-- one of the type, so that `isSortKey` holds of it.
pub mod Pages
pub mod Placement
mod Tests
use vibefy.Prelude.{
  ℕ, zero, suc, ◌+◌, ◌-◌, ◌*◌, ◌≤◌, Bool, true, false, not, ◌&&◌, ◌||◌, Option, none, some, List,
  [], ◌∷◌, ◌++◌, map, filter, all, is_empty, length, take, drop, find?, min, max, ltb, leb, nat_beq,
  if◌then◌else◌, ◌==◌, Eq, enum_eq, ◌≡◌, arith,
}
use vibefy.Prelude.Text.{Text, codes, same_text, codes_eq}
use vibefy.Prelude.Sort.{sort}
use vibefy.Prelude.Comparing.{Sign, or_then, minus, is_before}
use vibefy.Directory.Types.{
  DirectoryDimension, functional_integrity, security_posture, data_privacy_practice,
  practicality_ux, production_readiness, store_distribution_readiness, DirectoryEntry,
  RankableFields, SortKey, score, recent, dimension, DirectoryQuery, DirectoryPage,
}

abbrev pub position : DirectoryDimension → ℕ
position functional_integrity = 0
position security_posture = 1
position data_privacy_practice = 2
position practicality_ux = 3
position production_readiness = 4
position store_distribution_readiness = 5

abbrev pub default_page_size : ℕ
default_page_size = 24

pub record Language : Type 0 where
  pub locale_compare : Text → Text → Sign
  pub normalise : Text → Text
  pub is_white : ℕ → Bool

-- One above the code's number, in which a dimension that the entry does not carry is -1.
unfoldable pub dimension_score : DirectoryDimension → List (DirectoryDimension × ℕ) → ℕ
dimension_score d [] = 0
dimension_score d ((e, n) ∷ rest) =
    let later = dimension_score d rest in if nat_beq (position e) (position d) then n + 1 else later

-- `split(/\s+/).filter(Boolean)`, with the word that is being read.
abbrev word_ended : Bool → Text → List Text
word_ended false word = []
word_ended true word = if is_empty word then [] else word ∷ []

unfoldable pub words_from : (ℕ → Bool) → Text → Text → List Text
words_from is_white word [] = word_ended true word
words_from is_white word (c ∷ s) =
    word_ended (is_white c) word
    ++ words_from is_white (if is_white c then [] else word ++ c ∷ []) s

unfoldable pub starts_with : Text → Text → Bool
starts_with [] s = true
starts_with (c ∷ term) [] = false
starts_with (c ∷ term) (d ∷ s) = nat_beq c d && starts_with term s

unfoldable pub includes_text : Text → Text → Bool
includes_text term [] = starts_with term []
includes_text term (c ∷ s) = starts_with term (c ∷ s) || includes_text term s

abbrev pub or_empty : Option Text → Text
or_empty none = []
or_empty (some t) = t

abbrev pub or_default {ℓ} : {A : Type ℓ} → A → Option A → A
or_default a none = a
or_default a (some b) = b

abbrev pub rankable : DirectoryEntry → RankableFields
rankable e = record {
  slug = e.slug;
  score = e.score;
  assessed_on = e.assessed_on;
  dimensions = e.dimensions;
}

abbrev pub page_size_of : DirectoryQuery → ℕ
page_size_of query = min (max (or_default default_page_size query.page_size) 1) 100

abbrev pub page_of : DirectoryQuery → ℕ
page_of query = max (or_default 1 query.page) 1

module _ (language : Language) where
  abbrev pub comparator_for : SortKey → RankableFields → RankableFields → Sign
  comparator_for recent a b =
      or_then (language.locale_compare b.assessed_on a.assessed_on)
        (language.locale_compare a.slug b.slug)
  comparator_for score a b = or_then (minus b.score a.score) (language.locale_compare a.slug b.slug)
  comparator_for (dimension d) a b =
      or_then (minus (dimension_score d b.dimensions) (dimension_score d a.dimensions))
        (language.locale_compare a.slug b.slug)

  abbrev pub haystack_of : DirectoryEntry → Text
  haystack_of e = language.normalise (
      e.name
      ++ (codes " "
          ++ (e.certified_origin
              ++ (codes " " ++ (or_empty e.category ++ (codes " " ++ or_empty e.tagline))))))

  unfoldable pub matches : DirectoryEntry → Text → Bool
  matches entry search =
      let needle = language.normalise search in
      is_empty needle
      || all (λ (term : Text). includes_text term (haystack_of entry))
          (words_from language.is_white [] needle)

  -- The three tests of the filter; an empty search or category is none.
  abbrev pub fits_search : Option Text → DirectoryEntry → Bool
  fits_search none entry = true
  fits_search (some search) entry = is_empty search || matches entry search

  abbrev pub fits_category : Option Text → DirectoryEntry → Bool
  fits_category none entry = true
  fits_category (some category) entry =
      is_empty category
      || same_text (language.normalise (or_empty entry.category)) (language.normalise category)

  abbrev pub fits_score : Option ℕ → DirectoryEntry → Bool
  fits_score none entry = true
  fits_score (some least) entry = not (ltb entry.score least)

  abbrev pub fits : DirectoryQuery → DirectoryEntry → Bool
  fits query entry =
      fits_search query.search entry
      && (fits_category query.category entry && fits_score query.min_score entry)

  abbrev pub placed_before : SortKey → DirectoryEntry → DirectoryEntry → Bool
  placed_before key a b = is_before (comparator_for key (rankable a) (rankable b))

  unfoldable pub ordered : DirectoryQuery → List DirectoryEntry → List DirectoryEntry
  ordered query entries =
      sort (placed_before (or_default score query.sort)) (filter (fits query) entries)

  unfoldable pub query_directory : List DirectoryEntry → DirectoryQuery → DirectoryPage
  query_directory entries query =
      let all_of_them = ordered query entries in
      let start = (page_of query - 1) * page_size_of query in
      record {
        entries = take (page_size_of query) (drop start all_of_them);
        total = length all_of_them;
        page = page_of query;
        page_size = page_size_of query;
        sort = or_default score query.sort;
      }
