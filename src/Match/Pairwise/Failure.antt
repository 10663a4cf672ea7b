-- ===== src/Match/Pairwise/Failure.antt =====
-- `recompute_pair_failure_task` of backend/app/matching/pairwise.py: the failure that the failed
-- pairs of a task give it.
use find_me_gamer.Prelude.{
  Bool, true, false, not, Option, none, some, List, [], ◌∷◌, leb, or_else, bool_eq, if◌then◌else◌,
  filter, all, max,
}
use find_me_gamer.Result.{value_error, Result, ok, ◌>>=◌, require}
use find_me_gamer.Match.Model.{
  Timestamp, MatchStatus, MatchTask, MatchPairwiseRecord, is_pair_failed,
}

-- `ORDER BY retryable, creator_id`
unfoldable pub ordered_before : MatchPairwiseRecord → MatchPairwiseRecord → Bool
ordered_before a b =
    if bool_eq a.retryable b.retryable then leb a.creator_id b.creator_id else not a.retryable

-- The first of the rows in that order.
unfoldable pub first_in_order : MatchPairwiseRecord → List MatchPairwiseRecord → MatchPairwiseRecord
unfolding ordered_before
first_in_order a [] = a
first_in_order a (b ∷ rest) = first_in_order (if ordered_before a b then a else b) rest

-- `max(row.completed_at for row in rows if row.completed_at is not None)`; `none` where it raises.
unfoldable pub latest : List MatchPairwiseRecord → Option Timestamp
latest [] = none
latest (row ∷ rest) =
    let later = latest rest in
    elim row.completed_at [ none ↦ later | some t ↦ some (max t (or_else later t)) ]

unfoldable pub failed_records : List MatchPairwiseRecord → List MatchPairwiseRecord
failed_records = filter (λ r. is_pair_failed r.state)

-- The body of `recompute_pair_failure_task` where there is a failed record.
unfoldable pub aggregate_failure :
    MatchPairwiseRecord → List MatchPairwiseRecord → MatchTask → Result MatchTask
unfolding first_in_order latest
aggregate_failure row rest task =
    let aggregate = first_in_order row rest in
    do
      completed_at ← require (latest (row ∷ rest)) value_error
      ok (record task {
        status = MatchStatus.failed;
        error_code = aggregate.error_code;
        error_message = aggregate.error_message;
        retryable = all (λ r. r.retryable) (row ∷ rest);
        completed_at = some completed_at;
        result_count = 0;
      })

unfoldable pub recompute_from : List MatchPairwiseRecord → MatchTask → Result (Bool × MatchTask)
recompute_from [] task = ok (false, task)
recompute_from (row ∷ rest) task = do t ← aggregate_failure row rest task; ok (true, t)

unfoldable pub recompute_pair_failure_task :
    List MatchPairwiseRecord → MatchTask → Result (Bool × MatchTask)
unfolding recompute_from failed_records
recompute_pair_failure_task pairs task = recompute_from (failed_records pairs) task
