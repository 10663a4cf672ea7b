-- ===== src/Match/Lifecycle/Moves.antt =====
-- The changes that one transaction can make to the rows of a Match task, with the guards of each, as a
-- relation. Lifecycle/Refinement relates it to the operations of backend/app/repositories/match.py,
-- backend/app/matching/ and backend/app/workers/match_tasks.py.
use find_me_gamer.Prelude.{
  ℕ, ◌+◌, ◌≡◌, Bool, true, false, ◌||◌, some, List, ◌++◌, find, all, length, update,
}
use find_me_gamer.Prelude.Sets.{distinct, subset, same_set}
use find_me_gamer.Result.{ok}
use find_me_gamer.Match.Model.{
  Uuid, Timestamp, MatchTask, MatchPairwiseRecord, MatchTables, PairwiseMatchBrief, MatchResultItem,
  BriefSchema, is_status_running, is_status_failed, is_status_queued, is_status_succeeded,
  is_status_superseded, is_stage_screening, is_stage_pairwise, is_stage_ranking, is_pair_succeeded,
  is_pair_failed, is_pair_running, selected_ids, candidate_ids, screening_ids,
}
use find_me_gamer.Match.Pairwise.Brief.{of_creator}
use find_me_gamer.Match.Pairwise.Failure.{recompute_pair_failure_task}
use find_me_gamer.Match.Pairwise.Claim.{start_pair}
use find_me_gamer.Match.Pairwise.Apply.{finish_pair, settled_task, recounted}
use find_me_gamer.Match.Screening.{
  ScreeningSchema, ScreeningSelection, selection_ids, decided_tables, running_task,
}
use find_me_gamer.Match.Worker.Codes.{PairwiseTerminalFailure}
use find_me_gamer.Match.Worker.Fail.{failed_pair, failed_task}
use find_me_gamer.Match.Worker.Prepare.{add_missing}
use find_me_gamer.Match.Worker.Enqueue.{ready_for_ranking, enqueued, compensated}
use find_me_gamer.Match.Ranking.Output.{PublicationItem, same_group, expected_group}
use find_me_gamer.Match.Ranking.Publication.{
  result_items, publication_ids, flush_allowed, published_task,
}

-- The group of a published item agrees with its score and the threshold of the task.
unfoldable pub is_grouped : ℕ → PublicationItem → Bool
is_grouped threshold item =
    same_group item.ranking.result_group (expected_group threshold item.total_score)

pub data Move (schema : BriefSchema) (screening_schema : ScreeningSchema)
    : MatchTables → MatchTables → Type 0 where
  stay : (t : MatchTables) → Move schema screening_schema t t
  start_screening :
      (t : MatchTables) (task : MatchTask) (now : Timestamp)
      → t.task ≡ some task
      → is_stage_screening task.stage ≡ true
      → is_status_queued task.status ≡ true
      → Move schema screening_schema t (record t { task = some (running_task now task) })
  decide_screening :
      (t : MatchTables) (task : MatchTask) (now : Timestamp) (selections : List ScreeningSelection)
      → t.task ≡ some task
      → is_stage_screening task.stage ≡ true
      → (is_status_queued task.status || is_status_running task.status) ≡ true
      → distinct (selection_ids selections) ≡ true
      → subset (selection_ids selections) (screening_ids t.screening) ≡ true
      → subset (selection_ids selections) (candidate_ids t.candidates) ≡ true
      → Move schema screening_schema t (decided_tables screening_schema now selections task t)
  prepare_pairs :
      (t : MatchTables) (task : MatchTask) (now : Timestamp)
      → t.task ≡ some task
      → is_status_running task.status ≡ true
      → is_stage_pairwise task.stage ≡ true
      → Move schema screening_schema t
          (record t { pairs = add_missing now (selected_ids t.screening) t.pairs })
  claim_pair :
      (t : MatchTables) (task : MatchTask) (now : Timestamp) (creator_id : Uuid)
      (row : MatchPairwiseRecord)
      → t.task ≡ some task
      → find (of_creator creator_id) t.pairs ≡ some row
      → is_status_running task.status ≡ true
      → is_stage_pairwise task.stage ≡ true
      → is_pair_succeeded row.state ≡ false
      → Move schema screening_schema t
          (record t { pairs = update (of_creator creator_id) (start_pair now) t.pairs })
  succeed_pair :
      (t : MatchTables) (task failed : MatchTask) (now : Timestamp) (creator_id : Uuid)
      (row : MatchPairwiseRecord) (brief : PairwiseMatchBrief) (matches sibling : Bool)
      → t.task ≡ some task
      → find (of_creator creator_id) t.pairs ≡ some row
      → (is_status_running task.status || is_status_failed task.status) ≡ true
      → is_stage_pairwise task.stage ≡ true
      → (is_pair_running row.state || is_pair_failed row.state) ≡ true
      → brief.creator_id ≡ creator_id
      → recompute_pair_failure_task
          (update (of_creator creator_id) (finish_pair schema brief now) t.pairs)
          task
        ≡ ok (sibling, failed)
      → Move schema screening_schema t (record t {
        task = some (
            recounted now
              (update (of_creator creator_id) (finish_pair schema brief now) t.pairs)
              (settled_task matches sibling failed));
        pairs = update (of_creator creator_id) (finish_pair schema brief now) t.pairs;
      })
  fail_one :
      (t : MatchTables) (task failed : MatchTask) (now : Timestamp) (creator_id : Uuid)
      (row : MatchPairwiseRecord) (failure : PairwiseTerminalFailure) (changed : Bool)
      → t.task ≡ some task
      → find (of_creator creator_id) t.pairs ≡ some row
      → is_pair_succeeded row.state ≡ false
      → is_status_succeeded task.status ≡ false
      → recompute_pair_failure_task
          (update (of_creator creator_id) (failed_pair failure now) t.pairs)
          task
        ≡ ok (changed, failed)
      → Move schema screening_schema t (record t {
        task = some (record failed { updated_at = now });
        pairs = update (of_creator creator_id) (failed_pair failure now) t.pairs;
      })
  -- A settled task keeps its result while a pair that had not succeeded fails.
  fail_settled :
      (t : MatchTables) (task : MatchTask) (now : Timestamp) (creator_id : Uuid)
      (row : MatchPairwiseRecord) (failure : PairwiseTerminalFailure)
      → t.task ≡ some task
      → find (of_creator creator_id) t.pairs ≡ some row
      → is_pair_succeeded row.state ≡ false
      → (is_status_succeeded task.status || is_status_superseded task.status) ≡ true
      → Move schema screening_schema t
          (record t { pairs = update (of_creator creator_id) (failed_pair failure now) t.pairs })
  fail_whole :
      (t : MatchTables) (task : MatchTask) (now : Timestamp) (failure : PairwiseTerminalFailure)
      → t.task ≡ some task
      → (is_status_queued task.status || is_status_running task.status) ≡ true
      → Move schema screening_schema t (record t { task = some (failed_task failure now task) })
  enqueue_ranking :
      (t : MatchTables) (task : MatchTask) (now : Timestamp)
      → t.task ≡ some task
      → is_status_running task.status ≡ true
      → is_stage_pairwise task.stage ≡ true
      → ready_for_ranking schema task t ≡ true
      → Move schema screening_schema t
          (record t { task = some (enqueued now (length (selected_ids t.screening)) task) })
  compensate :
      (t : MatchTables) (task : MatchTask) (now : Timestamp)
      → t.task ≡ some task
      → is_status_running task.status ≡ true
      → is_stage_ranking task.stage ≡ true
      → Move schema screening_schema t (record t { task = some (compensated now t.pairs task) })
  publish_results :
      (t : MatchTables) (task : MatchTask) (now : Timestamp) (items : List PublicationItem)
      (briefs : List PairwiseMatchBrief) (rows : List MatchResultItem)
      → t.task ≡ some task
      → is_status_succeeded task.status ≡ false
      → is_stage_ranking task.stage ≡ true
      → same_set (publication_ids items) (selected_ids t.screening) ≡ true
      → all (is_grouped task.recommended_match_threshold) items ≡ true
      → result_items schema briefs items ≡ ok rows
      → flush_allowed (t.results ++ rows) (t.campaigns + 1) ≡ true
      → Move schema screening_schema t (record t {
        task = some (published_task now (length items) task);
        results = t.results ++ rows;
        campaigns = t.campaigns + 1;
      })
