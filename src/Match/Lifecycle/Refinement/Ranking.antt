-- ===== src/Match/Lifecycle/Refinement/Ranking.antt =====
-- The publication of backend/app/matching/ranking.py against the moves of a Match task.
use find_me_gamer.Prelude.{ℕ, ◌≡◌, refl, true, false, not, Option, some, List, [], ◌∷◌, all, arith}
use find_me_gamer.Result.{
  Ensures, returned, Ensures-result, Ensures-raise_if, Ensures-if, Ensures-require, Ensures-bind,
}
use find_me_gamer.Match.Model.{
  Uuid, Clock, MatchTask, MatchTables, PairwiseMatchBrief, BriefSchema, is_status_succeeded,
}
use find_me_gamer.Match.Screening.{ScreeningSchema}
use find_me_gamer.Match.Ranking.Output.{
  RankingItem, TextRules, PublicationItem, quantize_score, publication_items, validated_output,
  same_group, expected_group,
}
use find_me_gamer.Match.Ranking.Publication.{publish_new, publish}
use find_me_gamer.Match.Lifecycle.Moves.{stay, publish_results, is_grouped}
use find_me_gamer.Match.Lifecycle.Refinement.{Moves}

publication_items-grouped :
    (threshold : ℕ) (ranked : List RankingItem)
    → Ensures
        (λ items. all (is_grouped threshold) items ≡ true)
        (publication_items threshold ranked)
unfolding publication_items is_grouped
publication_items-grouped threshold [] = returned refl
publication_items-grouped threshold (item ∷ rest) =
    Ensures-bind (quantize_score item.total_score) _ λ score _.
      Ensures-raise_if (not (same_group item.result_group (expected_group threshold score))) _ _
        λ same. Ensures-bind _ _ λ items items_are.
          returned
            (ground (arith, Ensures-result (publication_items-grouped threshold rest) items_are))

-- Every item of a validated output is in the group that its score and the threshold give it.
pub validated_output-grouped :
    (rules : TextRules) (value : Option (List RankingItem)) (expected : List Uuid) (threshold : ℕ)
    → Ensures
        (λ items. all (is_grouped threshold) items ≡ true)
        (validated_output rules value expected threshold)
unfolding validated_output
validated_output-grouped rules value expected threshold =
    Ensures-require _ _ _
      λ ranked _. Ensures-raise_if _ _ _ λ _. publication_items-grouped threshold ranked

module _ (schema : BriefSchema) (screening_schema : ScreeningSchema) where
  publish_new-Moves :
      (clock : Clock) (task : MatchTask) (briefs : List PairwiseMatchBrief)
      (items : List PublicationItem) (t : MatchTables)
      → t.task ≡ some task
      → is_status_succeeded task.status ≡ false
      → all (is_grouped task.recommended_match_threshold) items ≡ true
      → Moves schema screening_schema t (publish_new schema clock task briefs items t)
  unfolding publish_new
  publish_new-Moves clock task briefs items t task_is unpublished grouped =
      Ensures-raise_if _ _ _ λ rankable. Ensures-raise_if _ _ _ λ complete.
        Ensures-bind _ _ λ now _. Ensures-bind _ _ λ rows rows_are.
          Ensures-raise_if _ _ _ λ allowed. returned (
            publish_results t task now items briefs rows task_is unpublished (ground arith)
              (ground arith) grouped rows_are (ground arith))

  pub publish-Moves :
      (clock : Clock) (match_task_id : Uuid) (items : List PublicationItem) (t : MatchTables)
      → ((task : MatchTask)
          → t.task ≡ some task
          → all (is_grouped task.recommended_match_threshold) items ≡ true)
      → Moves schema screening_schema t (publish schema clock match_task_id items t)
  unfolding publish
  publish-Moves clock match_task_id items t grouped = Ensures-raise_if _ _ _ λ _.
      Ensures-require _ _ _ λ task task_is. Ensures-bind _ _ λ briefs _.
        Ensures-if (is_status_succeeded task.status) _ _
          (λ _. Ensures-bind _ _ λ _ _. returned (stay t))
          (λ unpublished.
            publish_new-Moves clock task briefs items t task_is unpublished (grouped task task_is))
