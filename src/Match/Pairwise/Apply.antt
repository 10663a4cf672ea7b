-- ===== src/Match/Pairwise/Apply.antt =====
-- `SQLPairwiseRepository.apply_success` of backend/app/matching/pairwise.py.
use find_me_gamer.Prelude.{
  List, ◌+◌, Bool, false, not, ◌&&◌, ◌||◌, none, some, ◌==◌, opt_eq, bool_eq, str_eq, if◌then◌else◌,
  find, update, count_if, min,
}
use find_me_gamer.Result.{checkpoint, Result, ok, ◌>>=◌, ◌>>◌, raise_if, require}
use find_me_gamer.Match.Model.{
  Uuid, Timestamp, Clock, MatchStatus, MatchStage, PairwiseState, MatchTask, MatchPairwiseRecord,
  MatchTables, PairwiseMatchBrief, BriefSchema, is_status_running, is_status_failed,
  is_stage_pairwise, is_pair_succeeded, is_pair_failed, is_pair_running,
}
use find_me_gamer.Match.Pairwise.Brief.{
  of_creator, require_uuid, aware_utc, validated_brief, revalidated_brief,
}
use find_me_gamer.Match.Pairwise.Failure.{recompute_pair_failure_task}

-- The task's failure is the one that this record reported.
unfoldable pub failed_task_matches_record : MatchTask → MatchPairwiseRecord → Bool
failed_task_matches_record task row =
    is_status_failed task.status
    && is_pair_failed row.state
    && opt_eq str_eq task.error_code row.error_code
    && opt_eq str_eq task.error_message row.error_message
    && bool_eq task.retryable row.retryable
    && opt_eq ◌==◌ task.completed_at row.completed_at

-- The task is reopened where its failure was this record's alone.
unfoldable pub settled_task : Bool → Bool → MatchTask → MatchTask
settled_task matches has_failed_sibling task =
    if matches && not has_failed_sibling
    then record task {
      status = MatchStatus.running;
      stage = MatchStage.pairwise;
      error_code = none;
      error_message = none;
      retryable = false;
      completed_at = none;
    }
    else task

unfoldable pub recounted : Timestamp → List MatchPairwiseRecord → MatchTask → MatchTask
recounted now pairs task = record task {
  completed_units = min (1 + count_if (λ r. is_pair_succeeded r.state) pairs) task.total_units;
  updated_at = now;
}

module _ (schema : BriefSchema) where
  unfoldable pub finish_pair :
      PairwiseMatchBrief → Timestamp → MatchPairwiseRecord → MatchPairwiseRecord
  finish_pair brief now r = record r {
    state = PairwiseState.succeeded;
    match_brief = some (schema.model_dump brief);
    error_code = none;
    error_message = none;
    retryable = false;
    completed_at = some now;
    updated_at = now;
  }

  -- `apply_success` where the pair has not succeeded.
  unfoldable pub apply_unfinished :
      Clock
      → PairwiseMatchBrief
      → Uuid
      → MatchTask
      → MatchPairwiseRecord
      → MatchTables
      → Result (PairwiseMatchBrief × MatchTables)
  unfolding finish_pair failed_task_matches_record settled_task recounted aware_utc
      recompute_pair_failure_task
  apply_unfinished clock validated creator_id task row t = do
    raise_if
        (not (is_pair_running row.state || is_pair_failed row.state)
          || not (is_status_running task.status || is_status_failed task.status)
          || not (is_stage_pairwise task.stage))
        (checkpoint "match_pair_not_running")
    now ← aware_utc clock
    let matches = failed_task_matches_record task row
    let pairs = update (of_creator creator_id) (finish_pair validated now) t.pairs
    (has_failed_sibling, failed) ← recompute_pair_failure_task pairs task
    let settled = settled_task matches has_failed_sibling failed
    ok (validated, record t { task = some (recounted now pairs settled); pairs = pairs })

  unfoldable pub apply_success :
      Clock
      → Uuid
      → Uuid
      → PairwiseMatchBrief
      → MatchTables
      → Result (PairwiseMatchBrief × MatchTables)
  unfolding apply_unfinished require_uuid validated_brief revalidated_brief
  apply_success clock match_task_id creator_id brief t = do
    require_uuid match_task_id
    require_uuid creator_id
    validated ← revalidated_brief schema brief creator_id
    task ← require t.task (checkpoint "match_task_not_found")
    row ← require (find (of_creator creator_id) t.pairs) (checkpoint "match_pair_not_found")
    if is_pair_succeeded row.state
        then (do completed ← validated_brief schema row.match_brief creator_id; ok (completed, t))
        else apply_unfinished clock validated creator_id task row t
