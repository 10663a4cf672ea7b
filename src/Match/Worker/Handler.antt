-- ===== src/Match/Worker/Handler.antt =====
-- What a worker does with an exception (`_handle_failure` of backend/app/workers/match_tasks.py).
--
-- Whether the transaction of the store goes through is an argument: where the database is not
-- available it raises an SQLAlchemyError and is rolled back.
use find_me_gamer.Prelude.{ℕ, Bool, ◌&&◌, Option, none, some, String, ltb, if◌then◌else◌}
use find_me_gamer.Result.{Failure, database_error, Result, ok, err}
use find_me_gamer.Match.Model.{Uuid, Clock, MatchTables}
use find_me_gamer.Match.Worker.Codes.{
  PairwiseTerminalFailure, failure_shape, make_failure, failure_code,
}
use find_me_gamer.Match.Worker.Fail.{fail_pair, fail_task}

-- How the handling ends: Celery's retry, a return, a SafeMatchTaskError, or another exception.
pub data Handled : Type 0 where
  retry : String → Handled
  ends : Handled
  fails_safely : String → Handled
  fails : Failure → Handled

-- `executor.store.fail_task` or `executor.store.fail_pair`
unfoldable pub store_failure :
    Bool
    → Clock
    → Uuid
    → Option Uuid
    → PairwiseTerminalFailure
    → MatchTables
    → Result (Bool × MatchTables)
store_failure available clock task_id none failure t =
    if available then fail_task clock task_id failure t else err database_error
store_failure available clock task_id (some creator_id) failure t =
    if available then fail_pair clock task_id creator_id failure t else err database_error

unfoldable pub conclude_failure :
    ℕ → ℕ → MatchTables → Result (Bool × MatchTables) → Handled × MatchTables
conclude_failure retries max_retries t (ok (changed, u)) = (ends, u)
conclude_failure retries max_retries t (err database_error) = (
  (if ltb retries max_retries
      then retry "match_database_unavailable"
      else fails_safely "match_database_unavailable"),
  t,
)
conclude_failure retries max_retries t (err error) = (fails error, t)

-- The part after the failure is made.
unfoldable pub handle_made :
    ℕ
    → ℕ
    → Bool
    → Clock
    → Uuid
    → Option Uuid
    → MatchTables
    → Result PairwiseTerminalFailure
    → Handled × MatchTables
unfolding conclude_failure store_failure
handle_made retries max_retries available clock task_id creator_id t (err error) = (fails error, t)
handle_made retries max_retries available clock task_id creator_id t (ok failure) =
    if failure.retryable && ltb retries max_retries
    then (retry failure.code, t)
    else conclude_failure retries max_retries t
        (store_failure available clock task_id creator_id failure t)

unfoldable pub handle_failure :
    ℕ → ℕ → Bool → Clock → Uuid → Option Uuid → Failure → MatchTables → Handled × MatchTables
unfolding handle_made make_failure failure_shape failure_code
handle_failure retries max_retries available clock task_id creator_id error t =
    handle_made retries max_retries available clock task_id creator_id t
      (make_failure (failure_shape (failure_code error)))
