-- ===== src/Match/Lifecycle/Invariant/Rows.antt =====
-- What the pairwise row changes and the recomputed failure of a task keep.
use find_me_gamer.Prelude.{
  ◌≡◌, refl, Bool, true, false, ◌||◌, List, [], ◌∷◌, is_some, is_none, bool_eq, if◌then◌else◌, all,
  all-filter, all-append, arith,
}
use find_me_gamer.Result.{ok, Ensures, returned, Ensures-result, Ensures-require, Ensures-bind}
use find_me_gamer.Match.Model.{
  Uuid, Timestamp, MatchStatus, MatchTask, MatchPairwiseRecord, PairwiseMatchBrief, BriefSchema,
  is_pair_failed, is_pair_running,
}
use find_me_gamer.Match.Pairwise.Failure.{
  ordered_before, first_in_order, latest, failed_records, aggregate_failure, recompute_from,
  recompute_pair_failure_task,
}
use find_me_gamer.Match.Pairwise.Claim.{start_pair}
use find_me_gamer.Match.Pairwise.Apply.{finish_pair}
use find_me_gamer.Match.Worker.Codes.{PairwiseTerminalFailure}
use find_me_gamer.Match.Worker.Fail.{failed_pair}
use find_me_gamer.Match.Worker.Prepare.{queued_pair, add_missing}
use find_me_gamer.Match.Constraints.{pair_check}

pub start_pair-check :
    (now : Timestamp) (row : MatchPairwiseRecord) → pair_check (start_pair now row) ≡ true
unfolding pair_check start_pair
start_pair-check now row = ground arith

pub finish_pair-check :
    (schema : BriefSchema) (brief : PairwiseMatchBrief) (now : Timestamp)
    (row : MatchPairwiseRecord)
    → pair_check row ≡ true
    → (is_pair_running row.state || is_pair_failed row.state) ≡ true
    → pair_check (finish_pair schema brief now row) ≡ true
unfolding pair_check finish_pair
finish_pair-check schema brief now row h s = ground arith

pub failed_pair-check :
    (failure : PairwiseTerminalFailure) (now : Timestamp) (row : MatchPairwiseRecord)
    → pair_check (failed_pair failure now row) ≡ true
unfolding pair_check failed_pair
failed_pair-check failure now row = ground arith

pub add_missing-check :
    (now : Timestamp) (creators : List Uuid) (pairs : List MatchPairwiseRecord)
    → all pair_check pairs ≡ true
    → all pair_check (add_missing now creators pairs) ≡ true
unfolding add_missing
add_missing-check now [] pairs h = h
add_missing-check now (creator_id ∷ rest) pairs h = add_missing-check now rest _ (
    unfold pair_check in
    ground (arith, all-append pair_check pairs (queued_pair now creator_id ∷ [])))

shape_of_check :
    (row : MatchPairwiseRecord)
    → pair_check row ≡ true
    → bool_eq (is_none row.error_code) (is_none row.error_message) ≡ true
unfolding pair_check
shape_of_check row h = ground arith

first_in_order-check :
    (row : MatchPairwiseRecord) (rest : List MatchPairwiseRecord)
    → pair_check row ≡ true
    → all pair_check rest ≡ true
    → pair_check (first_in_order row rest) ≡ true
unfolding first_in_order
first_in_order-check row [] h hs = h
first_in_order-check row (next ∷ rest) h hs =
    first_in_order-check (if ordered_before row next then row else next) rest (ground arith)
      (ground arith)

-- What a recomputation leaves alone, and what it makes of the task where a pair has failed.
pub record Recomputed (task : MatchTask) (sibling : Bool) (failed : MatchTask) : Type 0 where
  pub same_stage : failed.stage ≡ task.stage
  pub same_total : failed.total_units ≡ task.total_units
  pub same_completed : failed.completed_units ≡ task.completed_units
  pub same_started : failed.started_at ≡ task.started_at
  pub same_threshold : failed.recommended_match_threshold ≡ task.recommended_match_threshold
  pub unchanged : sibling ≡ false → failed ≡ task
  pub is_failure :
      sibling ≡ true
      → (failed.status ≡ MatchStatus.failed)
        × (is_some failed.completed_at ≡ true)
        × (failed.result_count ≡ 0)
        × (bool_eq (is_none failed.error_code) (is_none failed.error_message) ≡ true)

aggregate_failure-Recomputed :
    (row : MatchPairwiseRecord) (rest : List MatchPairwiseRecord) (task : MatchTask)
    → pair_check row ≡ true
    → all pair_check rest ≡ true
    → Ensures (λ failed. Recomputed task true failed) (aggregate_failure row rest task)
unfolding aggregate_failure
aggregate_failure-Recomputed row rest task h hs =
    Ensures-require (latest (row ∷ rest)) _ _ λ completed_at _. returned (
      let aggregate = first_in_order-check row rest h hs in
      record {
        same_stage = refl;
        same_total = refl;
        same_completed = refl;
        same_started = refl;
        same_threshold = refl;
        unchanged = λ e. cc;
        is_failure = λ _. (refl, refl, refl, shape_of_check (first_in_order row rest) aggregate);
      })

recompute_from-Recomputed :
    (rows : List MatchPairwiseRecord) (task : MatchTask)
    → all pair_check rows ≡ true
    → Ensures (λ r. Recomputed task r.0 r.1) (recompute_from rows task)
unfolding recompute_from
recompute_from-Recomputed [] task h = returned (ground arith)
recompute_from-Recomputed (row ∷ rest) task h =
    Ensures-bind (aggregate_failure row rest task) _ λ failed failed_is. returned (
      Ensures-result (aggregate_failure-Recomputed row rest task (ground arith) (ground arith))
        failed_is)

pub recompute-Recomputed :
    (pairs : List MatchPairwiseRecord) (task failed : MatchTask) (sibling : Bool)
    → all pair_check pairs ≡ true
    → recompute_pair_failure_task pairs task ≡ ok (sibling, failed)
    → Recomputed task sibling failed
unfolding recompute_pair_failure_task
recompute-Recomputed pairs task failed sibling h e =
    Ensures-result
      (recompute_from-Recomputed (failed_records pairs) task
        (unfold failed_records in all-filter pair_check (λ r. is_pair_failed r.state) pairs h))
      e
