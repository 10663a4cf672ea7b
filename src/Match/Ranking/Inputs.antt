-- ===== src/Match/Ranking/Inputs.antt =====
-- What `SQLRankingRepository` of backend/app/matching/ranking.py reads under lock: the validated
-- inputs, the validated publication, and `load`.
use find_me_gamer.Prelude.{
  ℕ, ◌+◌, Bool, not, ◌&&◌, ◌||◌, Option, none, some, List, [], ◌∷◌, map, ◌==◌, ltb, is_some,
  is_none, if◌then◌else◌, find, is_empty, length,
}
use find_me_gamer.Prelude.Sets.{distinct, same_set}
use find_me_gamer.Result.{
  Failure, checkpoint, value_error, Result, ok, err, ◌>>=◌, ◌>>◌, raise_if, require,
}
use find_me_gamer.Match.Model.{
  Uuid, Json, MatchTask, MatchPairwiseRecord, MatchTables, PairwiseMatchBrief, MatchResultItem,
  BriefSchema, is_status_running, is_status_succeeded, is_stage_ranking, is_pair_succeeded,
  selected_ids, candidate_ids, pair_ids, result_ids,
}
use find_me_gamer.Match.Pairwise.Brief.{of_creator, require_uuid}
use find_me_gamer.Match.Ranking.Output.{unit_score}

abbrev pub ranking_checkpoint_invalid : Failure
ranking_checkpoint_invalid = checkpoint "match_ranking_checkpoint_invalid"

-- `_validated_brief` of this module: every failure is one checkpoint error.
unfoldable pub ranked_brief : BriefSchema → Option Json → Uuid → Result PairwiseMatchBrief
ranked_brief schema none creator_id = err ranking_checkpoint_invalid
ranked_brief schema (some value) creator_id = do
  brief ← require (schema.model_validate_json value) ranking_checkpoint_invalid
  if brief.creator_id == creator_id then ok brief else err ranking_checkpoint_invalid

-- The loop over the selected Creators. A Creator with no record does not occur: the identities of
-- the records were compared with the selected ones before.
unfoldable pub collect_briefs :
    BriefSchema → List MatchPairwiseRecord → List Uuid → Result (List PairwiseMatchBrief)
unfolding ranked_brief
collect_briefs schema pairs [] = ok []
collect_briefs schema pairs (creator_id ∷ rest) =
    let later = collect_briefs schema pairs rest in
    do
      row ← require (find (of_creator creator_id) pairs) ranking_checkpoint_invalid
      raise_if (not (is_pair_succeeded row.state)) ranking_checkpoint_invalid
      brief ← ranked_brief schema row.match_brief creator_id
      briefs ← later
      ok (brief ∷ briefs)

-- The comparison of the rows in `_validated_inputs`.
unfoldable pub inputs_agree : MatchTask → MatchTables → Bool
inputs_agree task t =
    let selected = selected_ids t.screening in
    not (is_empty selected)
    && distinct selected
    && same_set (candidate_ids t.candidates) selected
    && same_set (pair_ids t.pairs) selected
    && task.total_units == length selected + 2

unfoldable pub validated_inputs :
    BriefSchema → MatchTask → MatchTables → Result (List PairwiseMatchBrief)
unfolding inputs_agree collect_briefs
validated_inputs schema task t = do
  raise_if (not (inputs_agree task t)) ranking_checkpoint_invalid
  collect_briefs schema t.pairs (selected_ids t.screening)

-- The test of `_validated_publication`.
unfoldable pub is_published : MatchTask → MatchTables → Bool
is_published task t =
    let selected = selected_ids t.screening in
    task.result_count == length selected
    && length t.results == length selected
    && same_set (result_ids t.results) selected
    && distinct (map (λ (r : MatchResultItem). r.backend_order) t.results)
    && t.campaigns == 1
    && is_some task.completed_at
    && task.completed_units == task.total_units

unfoldable pub validated_publication : MatchTask → MatchTables → Result ℕ
unfolding is_published
validated_publication task t =
    if is_published task t
    then ok (length t.results)
    else err (checkpoint "match_publication_invalid")

pub record LockedRankingInput : Type 0 where
  pub threshold : ℕ
  pub match_briefs : List PairwiseMatchBrief
  pub published_count : Option ℕ

-- `LockedRankingInput.__post_init__`
unfoldable pub locked_ranking_input :
    ℕ → List PairwiseMatchBrief → Option ℕ → Result LockedRankingInput
locked_ranking_input threshold briefs published_count = do
  raise_if (ltb unit_score threshold) value_error
  raise_if (not (distinct (map (λ (b : PairwiseMatchBrief). b.creator_id) briefs))) value_error
  raise_if (if is_some published_count then not (is_empty briefs) else is_empty briefs) value_error
  ok (record { threshold = threshold; match_briefs = briefs; published_count = published_count })

unfoldable pub load : BriefSchema → Uuid → MatchTables → Result LockedRankingInput
unfolding validated_inputs validated_publication locked_ranking_input require_uuid
load schema match_task_id t = do
  require_uuid match_task_id
  task ← require t.task (checkpoint "match_task_not_found")
  briefs ← validated_inputs schema task t
  if is_status_succeeded task.status
      then (do
        count ← validated_publication task t
        locked_ranking_input task.recommended_match_threshold [] (some count))
      else (do
        raise_if
            (not (is_status_running task.status)
              || not (is_stage_ranking task.stage)
              || is_none task.ranking_enqueued_at)
            (checkpoint "match_task_not_rankable")
        locked_ranking_input task.recommended_match_threshold briefs none)
