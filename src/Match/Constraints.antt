-- ===== src/Match/Constraints.antt =====
-- The CHECK constraints of the Match tables (backend/app/db/models/match.py), but those on the order
-- of timestamps, which are the database clock's.
use find_me_gamer.Prelude.{Bool, not, ◌&&◌, ◌||◌, leb, ltb, ◌==◌, is_some, is_none, bool_eq}
use find_me_gamer.Match.Model.{
  MatchTask, MatchPairwiseRecord, is_status_queued, is_status_running, is_status_succeeded,
  is_status_failed, is_status_superseded, is_pair_queued, is_pair_running, is_pair_succeeded,
  is_pair_failed,
}

-- ck_match_tasks_completed_not_above_total, ck_match_tasks_result_not_above_total
unfoldable pub task_units_check : MatchTask → Bool
task_units_check task =
    leb task.completed_units task.total_units && leb task.result_count task.total_units

-- ck_match_tasks_error_shape
unfoldable pub task_error_check : MatchTask → Bool
task_error_check task =
    bool_eq (is_none task.error_code) (is_none task.error_message)
    && (is_status_failed task.status || is_status_superseded task.status || is_none task.error_code)
    && (is_status_failed task.status || not task.retryable)

-- ck_match_tasks_status_shape
unfoldable pub task_status_check : MatchTask → Bool
task_status_check task =
    (is_status_queued task.status && is_none task.started_at && is_none task.completed_at)
    || (is_status_running task.status && is_some task.started_at && is_none task.completed_at)
    || (is_status_succeeded task.status && is_some task.started_at && is_some task.completed_at)
    || (is_status_failed task.status && is_some task.completed_at)
    || (is_status_superseded task.status && is_some task.completed_at)

-- ck_match_pairwise_records_error_shape
unfoldable pub pair_error_check : MatchPairwiseRecord → Bool
pair_error_check row =
    bool_eq (is_none row.error_code) (is_none row.error_message)
    && (is_pair_failed row.state || (is_none row.error_code && not row.retryable))

-- ck_match_pairwise_records_state_shape
unfoldable pub pair_state_check : MatchPairwiseRecord → Bool
pair_state_check row =
    (is_pair_queued row.state
      && row.attempt_count == 0
      && is_none row.match_brief
      && is_none row.started_at
      && is_none row.completed_at)
    || (is_pair_running row.state
        && ltb 0 row.attempt_count
        && is_none row.match_brief
        && is_some row.started_at
        && is_none row.completed_at)
    || (is_pair_succeeded row.state
        && ltb 0 row.attempt_count
        && is_some row.match_brief
        && is_some row.started_at
        && is_some row.completed_at)
    || (is_pair_failed row.state
        && ltb 0 row.attempt_count
        && is_none row.match_brief
        && is_some row.started_at
        && is_some row.completed_at)

unfoldable pub task_check : MatchTask → Bool
unfolding task_units_check task_error_check task_status_check
task_check task = task_units_check task && task_error_check task && task_status_check task

unfoldable pub pair_check : MatchPairwiseRecord → Bool
unfolding pair_error_check pair_state_check
pair_check row = pair_error_check row && pair_state_check row
