-- ===== src/Match/Scenarios/Failures.antt =====
-- Failed pairs, the handling of exceptions, and the rounding of a score.
use find_me_gamer.Prelude.{
  ◌+◌, ◌*◌, ◌≤◌, ◌<◌, ◌≡◌, refl, Bool, true, false, none, some, List, [], ◌∷◌, String, arith,
}
use find_me_gamer.Result.{permanent, ok, ◌>>=◌, require}
use find_me_gamer.Match.Model.{Uuid, MatchStatus, PairwiseState, MatchTask, MatchPairwiseRecord}
use find_me_gamer.Match.Pairwise.Failure.{recompute_pair_failure_task}
use find_me_gamer.Match.Ranking.Output.{quantize_score}
use find_me_gamer.Match.Pairwise.Aggregate.{IsAggregate, recompute_pair_failure_task-IsAggregate}
use find_me_gamer.Match.Pairwise.Failure.{failed_records, aggregate_failure}
use find_me_gamer.Match.Worker.Codes.{temporary_match_failure}
use find_me_gamer.Match.Worker.Handler.{handle_failure}
use find_me_gamer.Match.Worker.Handling.{IsHandled, handle_failure-bounded}
use find_me_gamer.Match.Ranking.Output.{Decimal, quantize, is_hidden_score}
use find_me_gamer.Match.Ranking.Bounds.{step, quantize-half_up, quantize_score-hidden}
use find_me_gamer.Match.Scenarios.Ranked.{ranking_task, ranking_tables, finished_pair}

abbrev broken_pair : Uuid → String → Bool → MatchPairwiseRecord
broken_pair id code retryable = record finished_pair {
  creator_id = id;
  state = PairwiseState.failed;
  match_brief = none;
  error_code = some code;
  error_message = some temporary_match_failure;
  retryable = retryable;
}

abbrev broken_pairs : List MatchPairwiseRecord
broken_pairs =
    broken_pair 4 "deepseek_unavailable" true
    ∷ finished_pair
    ∷ broken_pair 5 "match_clock_invalid" false
    ∷ []

abbrev broken_task : MatchTask
broken_task = record ranking_task {
  status = MatchStatus.failed;
  error_code = some "match_clock_invalid";
  error_message = some temporary_match_failure;
  completed_at = some 2592000003500;
}

aggregated : recompute_pair_failure_task broken_pairs ranking_task ≡ ok (true, broken_task)
unfolding recompute_pair_failure_task ◌>>=◌ require aggregate_failure
aggregated = refl

recompute_pair_failure_task-IsAggregate_example :
    IsAggregate (failed_records broken_pairs) broken_task
recompute_pair_failure_task-IsAggregate_example =
    recompute_pair_failure_task-IsAggregate broken_pairs ranking_task broken_task aggregated

handle_failure-bounded_example :
    IsHandled 2 3 false (some 2592000009000) 9 (some 4) ranking_tables (
      handle_failure 2 3 false
        (some 2592000009000)
        9
        (some 4)
        (permanent "match_clock_invalid")
        ranking_tables)
handle_failure-bounded_example =
    handle_failure-bounded 2 3 false 2592000009000 9 (some 4) (permanent "match_clock_invalid")
      ranking_tables refl refl

abbrev score : Decimal
score = record { coefficient = 812350; places = 6 }

quantize-half_up_example :
    (2 * (quantize score * step score) ≤ 2 * 812350 + step score)
    × (2 * 812350 < 2 * (quantize score * step score) + step score)
quantize-half_up_example = quantize-half_up score (omega arith)

quantize_score-hidden_example : quantize_score score ≡ ok (quantize score)
quantize_score-hidden_example = quantize_score-hidden score (unfold is_hidden_score in refl)
