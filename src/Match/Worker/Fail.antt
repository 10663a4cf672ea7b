-- ===== src/Match/Worker/Fail.antt =====
-- `MatchTaskStore.fail_pair` and `fail_task` of backend/app/workers/match_tasks.py.
pub mod Returns
use find_me_gamer.Prelude.{
  Bool, true, false, ◌||◌, Option, none, some, or_else, if◌then◌else◌, find, update, max,
}
use find_me_gamer.Result.{Result, ok, ◌>>=◌, ◌>>◌}
use find_me_gamer.Match.Model.{
  Uuid, Timestamp, Clock, MatchStatus, PairwiseState, MatchTask, MatchPairwiseRecord, MatchTables,
  is_status_failed, is_status_succeeded, is_status_superseded, is_pair_succeeded,
}
use find_me_gamer.Match.Pairwise.Brief.{of_creator, require_uuid, aware_utc}
use find_me_gamer.Match.Pairwise.Failure.{recompute_pair_failure_task}
use find_me_gamer.Match.Worker.Codes.{PairwiseTerminalFailure}

unfoldable pub failed_pair :
    PairwiseTerminalFailure → Timestamp → MatchPairwiseRecord → MatchPairwiseRecord
failed_pair failure now r = record r {
  state = PairwiseState.failed;
  attempt_count = max r.attempt_count 1;
  started_at = some (or_else r.started_at now);
  completed_at = some now;
  match_brief = none;
  error_code = some failure.code;
  error_message = some failure.message;
  retryable = failure.retryable;
  updated_at = now;
}

-- `fail_pair` where the pair has not succeeded.
unfoldable pub fail_unfinished :
    Clock → Uuid → PairwiseTerminalFailure → MatchTask → MatchTables → Result (Bool × MatchTables)
unfolding failed_pair aware_utc recompute_pair_failure_task
fail_unfinished clock creator_id failure task t = do
  now ← aware_utc clock
  let pairs = update (of_creator creator_id) (failed_pair failure now) t.pairs
  if is_status_succeeded task.status || is_status_superseded task.status
      then ok (true, record t { pairs = pairs })
      else (do
        (changed, failed) ← recompute_pair_failure_task pairs task
        ok (true, record t { task = some (record failed { updated_at = now }); pairs = pairs }))

unfoldable pub fail_found :
    Clock
    → Uuid
    → PairwiseTerminalFailure
    → Option MatchTask
    → Option MatchPairwiseRecord
    → MatchTables
    → Result (Bool × MatchTables)
unfolding fail_unfinished
fail_found clock creator_id failure (some task) (some row) t =
    if is_pair_succeeded row.state
    then ok (false, t)
    else fail_unfinished clock creator_id failure task t
fail_found clock creator_id failure _ _ t = ok (false, t)

unfoldable pub fail_pair :
    Clock → Uuid → Uuid → PairwiseTerminalFailure → MatchTables → Result (Bool × MatchTables)
unfolding fail_found require_uuid
fail_pair clock task_id creator_id failure t = do
  require_uuid task_id
  require_uuid creator_id
  fail_found clock creator_id failure t.task (find (of_creator creator_id) t.pairs) t

unfoldable pub failed_task : PairwiseTerminalFailure → Timestamp → MatchTask → MatchTask
failed_task failure now task = record task {
  status = MatchStatus.failed;
  error_code = some failure.code;
  error_message = some failure.message;
  retryable = failure.retryable;
  completed_at = some now;
  updated_at = now;
  result_count = 0;
}

unfoldable pub fail_found_task :
    Clock → PairwiseTerminalFailure → Option MatchTask → MatchTables → Result (Bool × MatchTables)
fail_found_task clock failure none t = ok (false, t)
fail_found_task clock failure (some task) t =
    if is_status_succeeded task.status
      || is_status_superseded task.status
      || is_status_failed task.status
    then ok (false, t)
    else (do
      now ← aware_utc clock
      ok (true, record t { task = some (failed_task failure now task) }))

unfoldable pub fail_task :
    Clock → Uuid → PairwiseTerminalFailure → MatchTables → Result (Bool × MatchTables)
unfolding fail_found_task failed_task require_uuid aware_utc
fail_task clock task_id failure t = do require_uuid task_id; fail_found_task clock failure t.task t
