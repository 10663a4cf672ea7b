-- ===== src/Match/Ranking/Publication.antt =====
-- `SQLRankingRepository.publish` and `RankingService.run` of backend/app/matching/ranking.py.
use find_me_gamer.Prelude.{
  ℕ, ◌+◌, Bool, false, not, ◌&&◌, ◌||◌, Option, none, some, List, [], ◌∷◌, ◌++◌, map, ◌==◌, leb,
  is_none, if◌then◌else◌, find, all, length,
}
use find_me_gamer.Prelude.Sets.{distinct, same_set}
use find_me_gamer.Result.{
  checkpoint, invalid_output, value_error, integrity_error, Result, ok, ◌>>=◌, ◌>>◌, raise_if,
  require,
}
use find_me_gamer.Match.Model.{
  Uuid, Timestamp, Clock, MatchStatus, MatchTask, MatchTables, PairwiseMatchBrief, MatchResultItem,
  Dimensions, BriefSchema, is_status_running, is_status_failed, is_status_succeeded,
  is_stage_ranking, selected_ids, result_ids,
}
use find_me_gamer.Match.Pairwise.Brief.{require_uuid, aware_utc}
use find_me_gamer.Match.Ranking.Output.{
  Decimal, quantize_score, RankingItem, TextRules, PublicationItem, validated_output,
  is_public_brief,
}
use find_me_gamer.Match.Ranking.Inputs.{
  ranking_checkpoint_invalid, validated_inputs, validated_publication, LockedRankingInput, load,
}

quantize_dimensions : Dimensions Decimal → Result (Dimensions ℕ)
unfolding quantize_score
quantize_dimensions d = do
  content_fit ← quantize_score d.content_fit
  audience_fit ← quantize_score d.audience_fit
  performance_fit ← quantize_score d.performance_fit
  promotion_fit ← quantize_score d.promotion_fit
  brand_safety ← quantize_score d.brand_safety
  ok (record {
    content_fit = content_fit;
    audience_fit = audience_fit;
    performance_fit = performance_fit;
    promotion_fit = promotion_fit;
    brand_safety = brand_safety;
  })

-- `by_creator[creator_id]`; a missing key does not occur once the identities agree.
brief_of : Uuid → List PairwiseMatchBrief → Result PairwiseMatchBrief
brief_of creator_id briefs =
    require (find (λ (b : PairwiseMatchBrief). b.creator_id == creator_id) briefs) value_error

unfoldable pub result_item :
    BriefSchema → List PairwiseMatchBrief → PublicationItem → Result MatchResultItem
unfolding quantize_dimensions brief_of
result_item schema briefs item =
    let ranked = item.ranking in
    do
      brief ← brief_of ranked.creator_id briefs
      dimension_scores ← quantize_dimensions ranked.dimension_scores
      ok (record {
        creator_id = ranked.creator_id;
        backend_order = ranked.backend_order;
        match_brief = schema.model_dump brief;
        total_score = item.total_score;
        dimension_scores = dimension_scores;
        dimension_outcomes = ranked.dimension_outcomes;
        match_reasons = ranked.match_reasons;
        result_group = ranked.result_group;
        qualitative_label = ranked.qualitative_label;
      })

unfoldable pub result_items :
    BriefSchema → List PairwiseMatchBrief → List PublicationItem → Result (List MatchResultItem)
unfolding result_item
result_items schema briefs [] = ok []
result_items schema briefs (item ∷ rest) =
    let later = result_items schema briefs rest in
    do row ← result_item schema briefs item; rows ← later; ok (row ∷ rows)

abbrev pub publication_ids : List PublicationItem → List Uuid
publication_ids = map (λ (item : PublicationItem). item.ranking.creator_id)

-- The UNIQUE constraints of `match_result_items` and `outreach_campaigns` at the final flush.
unfoldable pub flush_allowed : List MatchResultItem → ℕ → Bool
flush_allowed rows campaigns =
    distinct (result_ids rows)
    && distinct (map (λ (r : MatchResultItem). r.backend_order) rows)
    && leb campaigns 1

unfoldable pub published_task : Timestamp → ℕ → MatchTask → MatchTask
published_task now count task = record task {
  status = MatchStatus.succeeded;
  result_count = count;
  completed_units = task.total_units;
  error_code = none;
  error_message = none;
  retryable = false;
  completed_at = some now;
  updated_at = now;
}

-- `publish` where the task is not published yet.
unfoldable pub publish_new :
    BriefSchema
    → Clock
    → MatchTask
    → List PairwiseMatchBrief
    → List PublicationItem
    → MatchTables
    → Result (ℕ × MatchTables)
unfolding result_items flush_allowed published_task aware_utc
publish_new schema clock task briefs items t = do
  raise_if
      (not (is_status_running task.status || is_status_failed task.status)
        || not (is_stage_ranking task.stage)
        || is_none task.ranking_enqueued_at)
      (checkpoint "match_task_not_rankable")
  raise_if (not (same_set (publication_ids items) (selected_ids t.screening)))
      ranking_checkpoint_invalid
  now ← aware_utc clock
  rows ← result_items schema briefs items
  let results = t.results ++ rows
  raise_if (not (flush_allowed results (t.campaigns + 1))) integrity_error
  ok (
    length items,
    record t {
      task = some (published_task now (length items) task);
      results = results;
      campaigns = t.campaigns + 1;
    },
  )

unfoldable pub publish :
    BriefSchema → Clock → Uuid → List PublicationItem → MatchTables → Result (ℕ × MatchTables)
unfolding validated_inputs validated_publication publish_new require_uuid
publish schema clock match_task_id items t = do
  require_uuid match_task_id
  task ← require t.task (checkpoint "match_task_not_found")
  briefs ← validated_inputs schema task t
  if is_status_succeeded task.status
      then (do count ← validated_publication task t; ok (count, t))
      else publish_new schema clock task briefs items t

-- `RankingService.run`, where no other worker changes the rows during the provider's call.
-- `answer` is the provider: it may raise, and `none` is a value of another type.
unfoldable pub run :
    BriefSchema
    → TextRules
    → (LockedRankingInput → Result (Option (List RankingItem)))
    → Clock
    → Uuid
    → MatchTables
    → Result (ℕ × MatchTables)
unfolding load publish validated_output
run schema rules answer clock match_task_id t = do
  locked ← load schema match_task_id t
  elim locked.published_count [
    | some count ↦ ok (count, t)
    | none ↦ (do
      raise_if (not (all (is_public_brief rules) locked.match_briefs)) invalid_output
      raw ← answer locked
      items ←
          validated_output rules raw
            (map (λ (b : PairwiseMatchBrief). b.creator_id) locked.match_briefs) locked.threshold
      publish schema clock match_task_id items t)
  ]
