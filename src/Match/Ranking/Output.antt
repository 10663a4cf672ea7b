-- ===== src/Match/Ranking/Output.antt =====
-- The validated output of the ranking model (backend/app/matching/ranking.py,
-- backend/app/schemas/ai_match.py): scores rounded to four places, groups by the threshold.
use find_me_gamer.Prelude.{
  ℕ, ◌+◌, ◌-◌, ◌*◌, ◌/◌, ◌^◌, Bool, true, false, not, ◌&&◌, ◌||◌, Option, List, [], ◌∷◌, ◌++◌,
  String, map, leb, if◌then◌else◌, all, any, length,
}
use find_me_gamer.Prelude.Sets.{distinct, same_set}
use find_me_gamer.Result.{invalid_output, Result, ok, err, ◌>>=◌, ◌>>◌, raise_if, require}
use find_me_gamer.Match.Model.{
  Uuid, PairwiseMatchBrief, MatchResultGroup, recommended, other, Dimensions,
  MatchDimensionAnalysis,
}

-- `Decimal(str(score))`: coefficient / 10 ^ places. The schema allows no negative score.
pub record Decimal : Type 0 where
  pub coefficient : ℕ
  pub places : ℕ

-- `.quantize(Decimal("0.0001"), rounding=ROUND_HALF_UP)`, in units of 0.0001.
unfoldable pub quantize : Decimal → ℕ
quantize d =
    if leb d.places 4
    then d.coefficient * 10 ^ (4 - d.places)
    else (2 * d.coefficient + 10 ^ (d.places - 4)) / (2 * 10 ^ (d.places - 4))

-- One, in units of 0.0001.
abbrev pub unit_score : ℕ
unit_score = 10000

-- `_quantize_score`
unfoldable pub quantize_score : Decimal → Result ℕ
unfolding quantize
quantize_score d = if leb (quantize d) unit_score then ok (quantize d) else err invalid_output

-- `HiddenScore`: from 0 to 1.
unfoldable pub is_hidden_score : Decimal → Bool
is_hidden_score d = leb d.coefficient (10 ^ d.places)

pub record RankingItem : Type 0 where
  pub creator_id : Uuid
  pub total_score : Decimal
  pub dimension_scores : Dimensions Decimal
  pub backend_order : ℕ
  pub result_group : MatchResultGroup
  pub qualitative_label : String
  pub dimension_outcomes : Dimensions String
  pub match_reasons : List String

abbrev pub ranking_ids : List RankingItem → List Uuid
ranking_ids = map (λ (item : RankingItem). item.creator_id)

abbrev pub ranking_orders : List RankingItem → List ℕ
ranking_orders = map (λ (item : RankingItem). item.backend_order)

-- What the code takes from Pydantic's text rules and from its own regular expressions.
pub record TextRules : Type 0 where
  pub has_valid_texts : RankingItem → Bool
  pub mentions_mechanics : String → Bool

abbrev pub dimension_list {ℓ} : {B : Type ℓ} {A : Type 0} → (A → B) → Dimensions A → List B
dimension_list f d =
    f d.content_fit
    ∷ f d.audience_fit
    ∷ f d.performance_fit
    ∷ f d.promotion_fit
    ∷ f d.brand_safety
    ∷ []

module _ (rules : TextRules) where
  -- `_reject_internal_public_text`
  unfoldable pub rejects : List String → Bool
  rejects = any rules.mentions_mechanics

  is_valid_item : RankingItem → Bool
  unfolding is_hidden_score
  is_valid_item item =
      is_hidden_score item.total_score
      && all is_hidden_score (dimension_list (λ x. x) item.dimension_scores)
      && rules.has_valid_texts item

  -- The validation of `FinalRankingOutput`.
  unfoldable pub is_final_output : List RankingItem → Bool
  unfolding is_valid_item
  is_final_output items =
      leb (length items) 30
      && all is_valid_item items
      && distinct (ranking_ids items)
      && distinct (ranking_orders items)

  -- `validate_expected_creator_ids`
  unfoldable pub matches_expected : List Uuid → List RankingItem → Bool
  matches_expected expected items = distinct expected && same_set (ranking_ids items) expected

  -- `_validate_final_public_text`
  unfoldable pub is_public_item : RankingItem → Bool
  unfolding rejects
  is_public_item item =
      not (rejects (dimension_list (λ x. x) item.dimension_outcomes ++ item.match_reasons))

  -- `_validate_pairwise_public_text`
  unfoldable pub is_public_brief : PairwiseMatchBrief → Bool
  unfolding rejects
  is_public_brief brief =
      all (λ (d : MatchDimensionAnalysis). not (rejects (d.analysis ∷ d.evidence)))
        (dimension_list (λ x. x) brief.dimensions)
      && not (rejects (brief.strengths ++ brief.risks ++ brief.evidence ++ brief.match_reasons))

pub record PublicationItem : Type 0 where
  pub ranking : RankingItem
  pub total_score : ℕ

-- `"recommended" if score >= threshold else "other"`
unfoldable pub expected_group : ℕ → ℕ → MatchResultGroup
expected_group threshold score = if leb threshold score then recommended else other

abbrev pub same_group : MatchResultGroup → MatchResultGroup → Bool
same_group recommended recommended = true
same_group other other = true
same_group _ _ = false

unfoldable pub publication_items : ℕ → List RankingItem → Result (List PublicationItem)
unfolding quantize_score expected_group
publication_items threshold [] = ok []
publication_items threshold (item ∷ rest) =
    let later = publication_items threshold rest in
    do
      score ← quantize_score item.total_score
      raise_if (not (same_group item.result_group (expected_group threshold score))) invalid_output
      items ← later
      ok (record { ranking = item; total_score = score } ∷ items)

-- `_validated_output`; `none` is a provider value of another type.
unfoldable pub validated_output :
    TextRules → Option (List RankingItem) → List Uuid → ℕ → Result (List PublicationItem)
unfolding is_final_output matches_expected is_public_item publication_items
validated_output rules value expected threshold = do
  items ← require value invalid_output
  raise_if
      (not (is_final_output rules items)
        || not (matches_expected rules expected items)
        || not (all (is_public_item rules) items))
      invalid_output
  publication_items threshold items
