-- ===== src/Match/Pairwise/Brief.antt =====
-- The argument checks and the validators of backend/app/matching/pairwise.py.
use find_me_gamer.Prelude.{Bool, Option, none, some, ◌==◌, if◌then◌else◌}
use find_me_gamer.Result.{
  checkpoint, invalid_output, type_error, Result, ok, err, ◌>>=◌, raise_if, require,
}
use find_me_gamer.Match.Model.{
  Uuid, Timestamp, Json, Clock, MatchPairwiseRecord, PairwiseMatchBrief, BriefSchema,
}

-- The row of one Creator.
abbrev pub of_creator : Uuid → MatchPairwiseRecord → Bool
of_creator creator_id row = row.creator_id == creator_id

unfoldable pub require_uuid : Uuid → Result (Unit {0})
require_uuid value = raise_if (value == 0) type_error

unfoldable pub aware_utc : Clock → Result Timestamp
aware_utc clock = require clock (checkpoint "match_clock_invalid")

module _ (schema : BriefSchema) where
  identified : PairwiseMatchBrief → Uuid → Result PairwiseMatchBrief
  identified validated expected =
      if validated.creator_id == expected
      then ok validated
      else err (checkpoint "match_pair_identity_invalid")

  -- `_validated_brief` at a stored JSON value; SQL NULL is JSON `null`, which no schema accepts.
  unfoldable pub validated_brief : Option Json → Uuid → Result PairwiseMatchBrief
  unfolding identified
  validated_brief none expected = err (checkpoint "match_pair_checkpoint_invalid")
  validated_brief (some value) expected = do
    validated ←
        require (schema.model_validate_json value) (checkpoint "match_pair_checkpoint_invalid")
    identified validated expected

  -- `_validated_brief` at a brief.
  unfoldable pub revalidated_brief : PairwiseMatchBrief → Uuid → Result PairwiseMatchBrief
  unfolding identified
  revalidated_brief value expected = do
    validated ← require (schema.model_validate value) (checkpoint "match_pair_checkpoint_invalid")
    identified validated expected

  -- `_provider_brief`; `none` is a provider value of another type.
  unfoldable pub provider_brief : Option PairwiseMatchBrief → Uuid → Result PairwiseMatchBrief
  provider_brief value expected = do
    brief ← require value invalid_output
    validated ← require (schema.model_validate brief) invalid_output
    if validated.creator_id == expected then ok validated else err invalid_output
