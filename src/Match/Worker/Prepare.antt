-- ===== src/Match/Worker/Prepare.antt =====
-- `MatchTaskStore.prepare` of backend/app/workers/match_tasks.py: the pairwise records of the
-- selected Creators, made once.
use find_me_gamer.Prelude.{
  Bool, true, false, not, ◌&&◌, ◌||◌, none, some, List, [], ◌∷◌, ◌++◌, ◌==◌, is_some, if◌then◌else◌,
  filter, find, any, is_empty,
}
use find_me_gamer.Prelude.Sets.{member, distinct, subset, same_set}
use find_me_gamer.Result.{checkpoint, Result, ok, ◌>>=◌, ◌>>◌, raise_if, require}
use find_me_gamer.Match.Model.{
  Uuid, Timestamp, Clock, PairwiseState, MatchTask, MatchPairwiseRecord, MatchTables, BriefSchema,
  is_status_running, is_status_succeeded, is_stage_pairwise, is_stage_ranking, is_pair_succeeded,
  selected_ids, candidate_ids, pair_ids,
}
use find_me_gamer.Match.Pairwise.Brief.{of_creator, require_uuid, aware_utc}

-- `xs != ys` on two lists of identities, negated.
abbrev pub same_list : List Uuid → List Uuid → Bool
same_list [] [] = true
same_list (x ∷ xs) (y ∷ ys) = (x == y) && same_list xs ys
same_list _ _ = false

unfoldable pub valid_succeeded_record : BriefSchema → MatchPairwiseRecord → Bool
valid_succeeded_record schema row = is_pair_succeeded row.state && elim row.match_brief [
  | none ↦ false
  | some value ↦ elim (schema.model_validate_json value) [
    | none ↦ false
    | some brief ↦ brief.creator_id == row.creator_id
  ]
]

unfoldable pub queued_pair : Timestamp → Uuid → MatchPairwiseRecord
queued_pair now creator_id = record {
  creator_id = creator_id;
  state = PairwiseState.queued;
  attempt_count = 0;
  match_brief = none;
  error_code = none;
  error_message = none;
  retryable = false;
  started_at = none;
  completed_at = none;
  created_at = now;
  updated_at = now;
}

-- The loop over the selected Creators: a queued record for each that has none.
unfoldable pub add_missing :
    Timestamp → List Uuid → List MatchPairwiseRecord → List MatchPairwiseRecord
unfolding queued_pair
add_missing now [] pairs = pairs
add_missing now (creator_id ∷ rest) pairs =
    add_missing now rest (
      if member creator_id (pair_ids pairs)
      then pairs
      else pairs ++ queued_pair now creator_id ∷ [])

-- `records[creator_id].state != PairwiseState.SUCCEEDED`
unfoldable pub unfinished : List MatchPairwiseRecord → Uuid → Bool
unfinished pairs creator_id = elim (find (of_creator creator_id) pairs) [
  | none ↦ false
  | some row ↦ not (is_pair_succeeded row.state)
]

unfoldable pub is_ranking_redelivery : MatchTask → Bool
is_ranking_redelivery task =
    is_status_running task.status && is_stage_ranking task.stage && is_some task.ranking_enqueued_at

unfoldable pub prepare_task :
    BriefSchema → Clock → List Uuid → MatchTask → MatchTables → Result (List Uuid × MatchTables)
unfolding is_ranking_redelivery add_missing unfinished aware_utc valid_succeeded_record
prepare_task schema clock creators task t =
    let redelivery = is_ranking_redelivery task in
    let selected = selected_ids t.screening in
    do
      raise_if
          (not redelivery
            && (not (is_status_running task.status) || not (is_stage_pairwise task.stage)))
          (checkpoint "match_task_not_preparable")
      raise_if
          (not (same_list selected creators)
            || not (same_set (candidate_ids t.candidates) selected))
          (checkpoint "match_checkpoint_invalid")
      raise_if (not (subset (pair_ids t.pairs) selected)) (checkpoint "match_checkpoint_invalid")
      if redelivery
          then (do
            raise_if
                (not (same_set (pair_ids t.pairs) selected)
                  || any (λ row. not (valid_succeeded_record schema row)) t.pairs)
                (checkpoint "match_checkpoint_invalid")
            ok ([], t))
          else (do
            now ← aware_utc clock
            let pairs = add_missing now selected t.pairs
            ok (filter (unfinished pairs) selected, record t { pairs = pairs }))

unfoldable pub prepare :
    BriefSchema → Clock → Uuid → List Uuid → MatchTables → Result (List Uuid × MatchTables)
unfolding prepare_task require_uuid
prepare schema clock task_id creators t = do
  require_uuid task_id
  raise_if (any (λ value. value == 0) creators || not (distinct creators) || is_empty creators)
      (checkpoint "match_checkpoint_invalid")
  task ← require t.task (checkpoint "match_task_not_found")
  if is_status_succeeded task.status then ok ([], t) else prepare_task schema clock creators task t
