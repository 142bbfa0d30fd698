-- ===== src/Directory/Types.antt =====
-- packages/directory/src/types.ts: what a listing says, and the part of it that an order may look at.
-- Scores are in tenths; page numbers and sizes are natural numbers.
use vibefy.Prelude.{ℕ, Bool, Option, List}
use vibefy.Prelude.Text.{Text}

pub data DirectoryDimension : Type 0 where
  functional_integrity security_posture data_privacy_practice : DirectoryDimension
  practicality_ux production_readiness store_distribution_readiness : DirectoryDimension

pub record DirectoryEntry : Type 0 where
  pub slug : Text
  pub name : Text
  pub certified_origin : Text
  pub score : ℕ
  pub rubric_version : Text
  pub assessed_on : Text
  pub dimensions : List (DirectoryDimension × ℕ)
  pub tagline : Option Text
  pub category : Option Text
  pub owner_is_marketing_client : Bool

pub record RankableFields : Type 0 where
  pub slug : Text
  pub score : ℕ
  pub assessed_on : Text
  pub dimensions : List (DirectoryDimension × ℕ)

pub data SortKey : Type 0 where
  score recent : SortKey
  dimension : DirectoryDimension → SortKey

pub record DirectoryQuery : Type 0 where
  pub search : Option Text
  pub category : Option Text
  pub sort : Option SortKey
  pub min_score : Option ℕ
  pub page : Option ℕ
  pub page_size : Option ℕ

pub record DirectoryPage : Type 0 where
  pub entries : List DirectoryEntry
  pub total : ℕ
  pub page : ℕ
  pub page_size : ℕ
  pub sort : SortKey
