-- ===== src/Match/Lifecycle/Briefs.antt =====
-- The checkpoint reads of the ranking stage (`load`, `_validated_inputs` and `RankingService.run` of
-- backend/app/matching/ranking.py) on a consistent task.
use mathlib.Core.Path.{subst}
use find_me_gamer.Prelude.{
  ◌≤◌, ◌≡◌, refl, ◌∙◌, inl, inr, true, false, Option, none, some, List, [], ◌∷◌, map, ◌==◌, is_some,
  find, all, is_empty, length, arith, Bool-cases,
}
use find_me_gamer.Prelude.Sets.{member, distinct, subset}
use find_me_gamer.Result.{Result, ok, ◌>>=◌, raise_if, require}
use find_me_gamer.Match.Model.{
  Uuid, Json, Clock, MatchTask, MatchPairwiseRecord, MatchTables, PairwiseMatchBrief, BriefSchema,
  is_status_running, is_status_succeeded, is_stage_ranking, is_pair_succeeded, selected_ids,
  pair_ids,
}
use find_me_gamer.Match.Pairwise.Brief.{of_creator, require_uuid}
use find_me_gamer.Match.Worker.Prepare.{valid_succeeded_record}
use find_me_gamer.Match.Ranking.Output.{RankingItem, TextRules, unit_score}
use find_me_gamer.Match.Ranking.Inputs.{validated_inputs, inputs_agree, is_published}
use find_me_gamer.Match.Lifecycle.Invariant.{IsConsistent}
use find_me_gamer.Match.Ranking.Inputs.{
  collect_briefs, ranked_brief, LockedRankingInput, validated_publication, locked_ranking_input,
  load,
}
use find_me_gamer.Match.Ranking.Publication.{run}

abbrev pub brief_ids : List PairwiseMatchBrief → List Uuid
brief_ids = map (λ (b : PairwiseMatchBrief). b.creator_id)

module _ (schema : BriefSchema) where
  -- A row of the Creator, with the brief that its JSON validates to.
  record HasBrief (pairs : List MatchPairwiseRecord) (creator_id : Uuid) : Type 0 where
    row : MatchPairwiseRecord
    brief : PairwiseMatchBrief
    found : find (of_creator creator_id) pairs ≡ some row
    succeeded : is_pair_succeeded row.state ≡ true
    valid : ranked_brief schema row.match_brief creator_id ≡ ok brief
    same : brief.creator_id ≡ creator_id

  parsed_brief :
      (row : MatchPairwiseRecord) (value : Json) (parsed : Option PairwiseMatchBrief)
      → schema.model_validate_json value ≡ parsed
      → row.match_brief ≡ some value
      → valid_succeeded_record schema row ≡ true
      → (brief : PairwiseMatchBrief) × (ranked_brief schema row.match_brief row.creator_id
          ≡ ok brief)
        × (brief.creator_id ≡ row.creator_id)
  unfolding valid_succeeded_record ranked_brief ◌>>=◌ require
  parsed_brief row value none parsed_is value_is h = absurd (ground arith)
  parsed_brief row value (some brief) parsed_is value_is h = (brief, ground arith, ground arith)

  row_brief :
      (row : MatchPairwiseRecord) (stored : Option Json)
      → row.match_brief ≡ stored
      → valid_succeeded_record schema row ≡ true
      → (brief : PairwiseMatchBrief) × (ranked_brief schema row.match_brief row.creator_id
          ≡ ok brief)
        × (brief.creator_id ≡ row.creator_id)
  row_brief row none stored_is h = absurd (unfold valid_succeeded_record in ground arith)
  row_brief row (some value) stored_is h =
      parsed_brief row value (schema.model_validate_json value) refl stored_is h

  has_brief :
      (creator_id : Uuid) (pairs : List MatchPairwiseRecord)
      → member creator_id (pair_ids pairs) ≡ true
      → all (valid_succeeded_record schema) pairs ≡ true
      → HasBrief pairs creator_id
  has_brief creator_id [] m h = absurd (ground arith)
  has_brief creator_id (row ∷ rest) m h = elim (Bool-cases (row.creator_id == creator_id)) [
    | inr differs ↦
        let later = has_brief creator_id rest (ground arith) (ground arith) in
        record {
          row = later.row;
          brief = later.brief;
          found = ground (arith, later.found);
          succeeded = later.succeeded;
          valid = later.valid;
          same = later.same;
        }
    | inl this ↦
        let stored = row_brief row row.match_brief refl (ground arith) in
        let is_this : row.creator_id ≡ creator_id = ground arith in
        record {
          row = row;
          brief = stored.0;
          found = ground arith;
          succeeded = unfold valid_succeeded_record in ground arith;
          valid = subst (λ c. ranked_brief schema row.match_brief c ≡ ok stored.0) is_this stored.1;
          same = stored.2 ∙ is_this;
        }
  ]

  -- The loop over Creators that all have a valid record returns their briefs, in their order.
  pub collect_briefs-total :
      (pairs : List MatchPairwiseRecord) (ids : List Uuid)
      → subset ids (pair_ids pairs) ≡ true
      → all (valid_succeeded_record schema) pairs ≡ true
      → (briefs : List PairwiseMatchBrief) × (collect_briefs schema pairs ids ≡ ok briefs)
        × (brief_ids briefs ≡ ids)
  unfolding collect_briefs ◌>>=◌ raise_if require
  collect_briefs-total pairs [] known valid = ([], refl, refl)
  collect_briefs-total pairs (creator_id ∷ rest) known valid =
      let first = has_brief creator_id pairs (ground arith) valid in
      let later = collect_briefs-total pairs rest (ground arith) valid in
      (
        first.brief ∷ later.0,
        rw first.found (rw first.valid (rw later.1 (rw first.succeeded))),
        cc (first.same, later.2),
      )

  -- In the ranking stage the locked inputs agree, and the checkpoint reads return the briefs of the
  -- selected Creators in screening order.
  pub ranked-validated_inputs :
      (task : MatchTask) (t : MatchTables)
      → IsConsistent schema task t
      → is_stage_ranking task.stage ≡ true
      → (briefs : List PairwiseMatchBrief) × (validated_inputs schema task t ≡ ok briefs)
        × (brief_ids briefs ≡ selected_ids t.screening)
  unfolding validated_inputs
  ranked-validated_inputs task t inv in_ranking =
      let decision = inv.decided (ground arith) in
      let complete = inv.ranked in_ranking in
      let total =
        collect_briefs-total t.pairs (selected_ids t.screening) (ground (arith, complete.0))
          complete.1 in
      let agree : inputs_agree task t ≡ true =
        unfold inputs_agree in
        ground (arith, decision.1, decision.2, decision.3, decision.4, complete.0) in
      (total.0, (rw agree (unfold ◌>>=◌ raise_if in total.1)), total.2)

  load_due :
      (task_id : Uuid) (task : MatchTask) (t : MatchTables) (briefs : List PairwiseMatchBrief)
      → (task_id == 0) ≡ false
      → t.task ≡ some task
      → validated_inputs schema task t ≡ ok briefs
      → (is_empty (brief_ids briefs) ≡ false) × (distinct (brief_ids briefs) ≡ true)
      → is_status_running task.status ≡ true
      → is_stage_ranking task.stage ≡ true
      → is_some task.ranking_enqueued_at ≡ true
      → task.recommended_match_threshold ≤ unit_score
      → load schema task_id t
        ≡ ok (record {
          threshold = task.recommended_match_threshold;
          match_briefs = briefs;
          published_count = none;
        })
  unfolding load require_uuid ◌>>=◌ raise_if require locked_ranking_input
  load_due task_id task t briefs named task_is inputs_are shape running in_ranking due bounded =
      rw named (rw task_is (rw inputs_are (ground (arith, shape.0, shape.1))))

  load_published :
      (task_id : Uuid) (task : MatchTask) (t : MatchTables) (briefs : List PairwiseMatchBrief)
      → (task_id == 0) ≡ false
      → t.task ≡ some task
      → validated_inputs schema task t ≡ ok briefs
      → is_status_succeeded task.status ≡ true
      → is_published task t ≡ true
      → task.recommended_match_threshold ≤ unit_score
      → load schema task_id t
        ≡ ok (record {
          threshold = task.recommended_match_threshold;
          match_briefs = [];
          published_count = some (length t.results);
        })
  unfolding load require_uuid ◌>>=◌ raise_if require locked_ranking_input validated_publication
  load_published task_id task t briefs named task_is inputs_are done complete bounded =
      rw named (rw task_is (rw inputs_are (rw done (rw complete (ground arith)))))

  -- Where the final ranking of a consistent task is due, for an identity that is not nil and a
  -- threshold of at most one, `load` never fails: it returns the threshold and exactly the briefs of
  -- the selected Creators.
  pub load-ranked :
      (task_id : Uuid) (task : MatchTask) (t : MatchTables)
      → (task_id == 0) ≡ false
      → t.task ≡ some task
      → IsConsistent schema task t
      → is_status_running task.status ≡ true
      → is_stage_ranking task.stage ≡ true
      → is_some task.ranking_enqueued_at ≡ true
      → task.recommended_match_threshold ≤ unit_score
      → (briefs : List PairwiseMatchBrief) × (load schema task_id t
          ≡ ok (record {
            threshold = task.recommended_match_threshold;
            match_briefs = briefs;
            published_count = none;
          }))
        × (brief_ids briefs ≡ selected_ids t.screening)
  load-ranked task_id task t named task_is inv running in_ranking due bounded =
      let decision = inv.decided (ground arith) in
      let inputs = ranked-validated_inputs task t inv in_ranking in
      (
        inputs.0,
        load_due task_id task t inputs.0 named task_is inputs.1
            (rw inputs.2 decision.1, rw inputs.2 decision.2) running in_ranking due bounded,
        inputs.2,
      )

  -- Ranking a consistent task again that succeeded in the ranking stage, for an identity that is not
  -- nil and a threshold of at most one, answers with the published count whatever the provider, and
  -- changes nothing.
  pub run-published :
      (rules : TextRules) (answer : LockedRankingInput → Result (Option (List RankingItem)))
      (clock : Clock) (task_id : Uuid) (task : MatchTask) (t : MatchTables)
      → (task_id == 0) ≡ false
      → t.task ≡ some task
      → IsConsistent schema task t
      → is_status_succeeded task.status ≡ true
      → is_stage_ranking task.stage ≡ true
      → task.recommended_match_threshold ≤ unit_score
      → run schema rules answer clock task_id t ≡ ok (length t.results, t)
  unfolding run ◌>>=◌
  run-published rules answer clock task_id task t named task_is inv done in_ranking bounded =
      let inputs = ranked-validated_inputs task t inv in_ranking in
      rw (
        load_published task_id task t inputs.0 named task_is inputs.1 done
          ((inv.published done).1 in_ranking) bounded)
