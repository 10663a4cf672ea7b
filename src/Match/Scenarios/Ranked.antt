-- ===== src/Match/Scenarios/Ranked.antt =====
-- A task of one selected Creator, from its enqueued ranking to its publication.
use find_me_gamer.Prelude.{◌≡◌, refl, true, false, none, some, List, [], ◌∷◌, arith}
use find_me_gamer.Result.{invalid_output, ok, err, ◌>>=◌, raise_if, require}
use find_me_gamer.Match.Model.{
  MatchStatus, ranking, PairwiseState, MatchTask, MatchPairwiseRecord, MatchTables,
  PairwiseMatchBrief, recommended,
}
use find_me_gamer.Match.Worker.Codes.{PairwiseTerminalFailure}
use find_me_gamer.Match.Worker.Prepare.{valid_succeeded_record}
use find_me_gamer.Match.Worker.Enqueue.{enqueued, mark_ranking_enqueued, compensate_ranking_enqueue}
use find_me_gamer.Match.Ranking.Output.{
  RankingItem, PublicationItem, validated_output, expected_group,
}
use find_me_gamer.Match.Ranking.Inputs.{is_published}
use find_me_gamer.Match.Ranking.Publication.{published_task, publish}
use find_me_gamer.Match.Constraints.{task_check, pair_check}
use find_me_gamer.Match.Worker.Codes.{internal_match_failure}
use find_me_gamer.Match.Ranking.Output.{is_public_brief}
use find_me_gamer.Match.Ranking.Inputs.{load}
use find_me_gamer.Match.Ranking.Publication.{run}
use find_me_gamer.Match.Ranking.Sound.{IsPublishable, validated_output-IsPublishable}
use find_me_gamer.Match.Lifecycle.Invariant.{IsConsistent, is_grouped_row}
use find_me_gamer.Match.Lifecycle.Briefs.{brief_ids, load-ranked, run-published}
use find_me_gamer.Match.Lifecycle.Reopened.{compensate-mark}
use find_me_gamer.Match.Scenarios.{each, briefs, rules, screened, input, base_task}

-- The task of one selected Creator, whose ranking is enqueued.
abbrev pub ranking_task : MatchTask
ranking_task = record base_task {
  status = MatchStatus.running;
  stage = ranking;
  completed_units = 2;
  total_units = 3;
  ranking_enqueued_at = some 2592000004000;
  started_at = some 2592000002000;
}

abbrev pub finished_pair : MatchPairwiseRecord
finished_pair = record {
  creator_id = 1;
  state = PairwiseState.succeeded;
  attempt_count = 1;
  match_brief = some "brief";
  error_code = none;
  error_message = none;
  retryable = false;
  started_at = some 2592000003000;
  completed_at = some 2592000003500;
  created_at = 2592000002500;
  updated_at = 2592000003500;
}

abbrev pub ranking_tables : MatchTables
ranking_tables = record {
  task = some ranking_task;
  screening =
      record {
        creator_id = 1;
        screening_order = 0;
        locked_creator_brief = some "one";
        selected = true;
        screening_reason = some "fits";
      }
      ∷ screened 2 1 "two"
      ∷ [];
  candidates = input 1 ∷ [];
  pairs = finished_pair ∷ [];
  results = [];
  campaigns = 0;
}

ranking-IsConsistent : IsConsistent briefs ranking_task ranking_tables
unfolding task_check pair_check valid_succeeded_record is_grouped_row
ranking-IsConsistent = record {
  task_checked = refl;
  pairs_checked = refl;
  unique = refl;
  undecided = λ h. absurd (ground arith);
  decided = λ _. (refl, refl, refl, refl, refl);
  ranked = λ _. (refl, refl);
  unpublished = λ _. (refl, refl);
  published = λ h. absurd (ground arith);
  grouped = refl;
}

load-ranked_example :
    (found : List PairwiseMatchBrief) × (load briefs 9 ranking_tables
      ≡ ok (record { threshold = 7500; match_briefs = found; published_count = none }))
    × (brief_ids found ≡ 1 ∷ [])
load-ranked_example =
    load-ranked briefs 9 ranking_task ranking_tables refl refl ranking-IsConsistent refl refl refl
      (omega arith)

compensate-mark_example :
    (u : MatchTables) × (compensate_ranking_enqueue (some 2592000005000) 9 ranking_tables
      ≡ ok (true, u))
    × (mark_ranking_enqueued briefs (some 2592000006000) 9 u
        ≡ ok (true, record ranking_tables { task = some (enqueued 2592000006000 1 ranking_task) }))
compensate-mark_example =
    compensate-mark briefs 2592000005000 2592000006000 9 ranking_task ranking_tables refl refl
      ranking-IsConsistent refl refl refl

abbrev ranked_item : RankingItem
ranked_item = record {
  creator_id = 1;
  total_score = record { coefficient = 812345; places = 6 };
  dimension_scores = each (record { coefficient = 8; places = 1 });
  backend_order = 1;
  result_group = recommended;
  qualitative_label = "Strong match";
  dimension_outcomes = each "good";
  match_reasons = "fits" ∷ [];
}

abbrev published_items : List PublicationItem
published_items = record { ranking = ranked_item; total_score = 8123 } ∷ []

validated_items :
    validated_output rules (some (ranked_item ∷ [])) (1 ∷ []) 7500 ≡ ok published_items
unfolding validated_output ◌>>=◌ raise_if require
validated_items = refl

validated_output-IsPublishable_example :
    IsPublishable (some (ranked_item ∷ [])) (1 ∷ []) 7500 published_items
validated_output-IsPublishable_example =
    validated_output-IsPublishable rules (some (ranked_item ∷ [])) (1 ∷ []) 7500 published_items
      validated_items

abbrev done_task : MatchTask
done_task = published_task 2592000007000 1 ranking_task

abbrev done_tables : MatchTables
done_tables = record ranking_tables {
  task = some done_task;
  results =
      record {
        creator_id = 1;
        backend_order = 1;
        match_brief = "brief";
        total_score = 8123;
        dimension_scores = each 8000;
        dimension_outcomes = each "good";
        match_reasons = "fits" ∷ [];
        result_group = recommended;
        qualitative_label = "Strong match";
      }
      ∷ [];
  campaigns = 1;
}

ranked_run :
    run briefs rules (λ locked. ok (some (ranked_item ∷ []))) (some 2592000007000) 9 ranking_tables
    ≡ ok (1, done_tables)
unfolding run ◌>>=◌ raise_if require load publish validated_output is_public_brief
ranked_run = refl

done-IsConsistent : IsConsistent briefs done_task done_tables
unfolding task_check pair_check valid_succeeded_record is_grouped_row is_published published_task
    expected_group
done-IsConsistent = record {
  task_checked = refl;
  pairs_checked = refl;
  unique = refl;
  undecided = λ h. absurd (ground arith);
  decided = λ _. (refl, refl, refl, refl, refl);
  ranked = λ _. (refl, refl);
  unpublished = λ h. absurd (ground arith);
  published = λ _. (refl, λ _. refl, λ h. absurd (ground arith));
  grouped = refl;
}

run-published_example :
    run briefs rules (λ locked. err invalid_output) none 9 done_tables ≡ ok (1, done_tables)
run-published_example =
    run-published briefs rules (λ locked. err invalid_output) none 9 done_task done_tables refl refl
      done-IsConsistent (unfold published_task in refl) (unfold published_task in refl)
      (unfold published_task in omega arith)

abbrev pub late : PairwiseTerminalFailure
late = record { code = "match_internal_error"; message = internal_match_failure; retryable = true }
