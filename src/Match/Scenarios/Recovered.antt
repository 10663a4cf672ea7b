-- ===== src/Match/Scenarios/Recovered.antt =====
-- A pair that is reported as failed while its comparison is about to succeed, and a ranking that
-- cannot be sent.
use find_me_gamer.Match.Worker.Executor.{advance, advance-undelivered}
use find_me_gamer.Match.Worker.Enqueue.{is_markable, ready_for_ranking}
use find_me_gamer.Match.Worker.Prepare.{valid_succeeded_record}
use find_me_gamer.Prelude.{false, ◌≡◌, refl, true, none, some, [], ◌∷◌, arith}
use find_me_gamer.Result.{err, transient, ok}
use find_me_gamer.Match.Model.{pairwise, PairwiseState, MatchTask, MatchPairwiseRecord, MatchTables}
use find_me_gamer.Match.Pairwise.Apply.{apply_success}
use find_me_gamer.Match.Worker.Fail.{fail_pair}
use find_me_gamer.Match.Constraints.{task_check, pair_check}
use find_me_gamer.Match.Lifecycle.Invariant.{IsConsistent, is_grouped_row}
use find_me_gamer.Match.Lifecycle.Recovered.{fail_pair-apply_success}
use find_me_gamer.Match.Scenarios.{briefs, brief_of_1}
use find_me_gamer.Match.Scenarios.Ranked.{ranking_task, finished_pair, ranking_tables, late}
use find_me_gamer.Match.Pairwise.Failure.{failed_records}

abbrev pairwise_task : MatchTask
pairwise_task = record ranking_task {
  stage = pairwise;
  completed_units = 1;
  ranking_enqueued_at = none;
}

abbrev running_pair : MatchPairwiseRecord
running_pair = record finished_pair {
  state = PairwiseState.running;
  match_brief = none;
  completed_at = none;
}

abbrev pairwise_tables : MatchTables
pairwise_tables = record ranking_tables { task = some pairwise_task; pairs = running_pair ∷ [] }

pairwise-IsConsistent : IsConsistent briefs pairwise_task pairwise_tables
unfolding task_check pair_check is_grouped_row
pairwise-IsConsistent = record {
  task_checked = refl;
  pairs_checked = refl;
  unique = refl;
  undecided = λ h. absurd (ground arith);
  decided = λ _. (refl, refl, refl, refl, refl);
  ranked = λ h. absurd (ground arith);
  unpublished = λ _. (refl, refl);
  published = λ h. absurd (ground arith);
  grouped = refl;
}

fail_pair-apply_success_example :
    (u : MatchTables) × (fail_pair (some 2592000003100) 9 1 late pairwise_tables ≡ ok (true, u))
    × (apply_success briefs (some 2592000003200) 9 1 brief_of_1 u
        ≡ apply_success briefs (some 2592000003200) 9 1 brief_of_1 pairwise_tables)
fail_pair-apply_success_example =
    fail_pair-apply_success briefs 2592000003100 2592000003200 9 1 brief_of_1 late pairwise_task
      running_pair pairwise_tables refl refl refl refl pairwise-IsConsistent
      (unfold failed_records in refl) refl refl refl refl

abbrev ready_tables : MatchTables
ready_tables = record ranking_tables { task = some pairwise_task }

advance-undelivered_example :
    (next : MatchTask) × (advance briefs false
        (some 2592000004000)
        (some 2592000004100)
        9
        ready_tables
      ≡ (err (transient "match_queue_unavailable"), record ready_tables { task = some next }))
    × (is_markable briefs next ready_tables ≡ true)
advance-undelivered_example =
    advance-undelivered briefs 2592000004000 2592000004100 9 pairwise_task ready_tables refl refl
      (unfold is_markable ready_for_ranking valid_succeeded_record in refl)
