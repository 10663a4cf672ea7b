-- ===== src/Match/Lifecycle/Invariant/Pairs.antt =====
-- The moves of the pairwise stage and the invariant.
use find_me_gamer.Prelude.{
  ◌≡◌, Bool, true, false, ◌||◌, some, find, update, all-find, all-update, arith,
}
use find_me_gamer.Result.{ok}
use find_me_gamer.Match.Model.{
  Uuid, Timestamp, MatchTask, MatchPairwiseRecord, MatchTables, PairwiseMatchBrief, BriefSchema,
  is_status_running, is_status_failed, is_status_succeeded, is_stage_pairwise, is_pair_succeeded,
  is_pair_failed, is_pair_running, selected_ids,
}
use find_me_gamer.Match.Pairwise.Brief.{of_creator}
use find_me_gamer.Match.Pairwise.Failure.{recompute_pair_failure_task}
use find_me_gamer.Match.Pairwise.Claim.{start_pair}
use find_me_gamer.Match.Pairwise.Apply.{finish_pair, settled_task, recounted}
use find_me_gamer.Match.Worker.Codes.{PairwiseTerminalFailure}
use find_me_gamer.Match.Worker.Fail.{failed_pair}
use find_me_gamer.Match.Worker.Prepare.{valid_succeeded_record, add_missing}
use find_me_gamer.Match.Ranking.Inputs.{is_published}
use find_me_gamer.Match.Constraints.{task_check, pair_check}
use find_me_gamer.Match.Lifecycle.Invariant.{IsConsistent}
use find_me_gamer.Match.Lifecycle.Invariant.Rows.{
  start_pair-check, finish_pair-check, failed_pair-check, add_missing-check, recompute-Recomputed,
}

module _ (schema : BriefSchema) (t : MatchTables) (task : MatchTask) where
  pub prepared-IsConsistent :
      (now : Timestamp)
      → is_status_running task.status ≡ true
      → is_stage_pairwise task.stage ≡ true
      → IsConsistent schema task t
      → IsConsistent schema task
          (record t { pairs = add_missing now (selected_ids t.screening) t.pairs })
  unfolding is_published
  prepared-IsConsistent now running stage_is inv =
      ground (arith, add_missing-check now (selected_ids t.screening) t.pairs)

  pub claimed-IsConsistent :
      (now : Timestamp) (creator_id : Uuid) (row : MatchPairwiseRecord)
      → find (of_creator creator_id) t.pairs ≡ some row
      → is_status_running task.status ≡ true
      → is_stage_pairwise task.stage ≡ true
      → IsConsistent schema task t
      → IsConsistent schema task
          (record t { pairs = update (of_creator creator_id) (start_pair now) t.pairs })
  unfolding is_published
  claimed-IsConsistent now creator_id row found running stage_is inv =
      let kept =
        all-update pair_check (of_creator creator_id) (start_pair now) t.pairs inv.pairs_checked
          found (start_pair-check now row) in
      ground arith

  pub succeeded-IsConsistent :
      (failed : MatchTask) (now : Timestamp) (creator_id : Uuid) (row : MatchPairwiseRecord)
      (brief : PairwiseMatchBrief) (matches sibling : Bool)
      → find (of_creator creator_id) t.pairs ≡ some row
      → (is_status_running task.status || is_status_failed task.status) ≡ true
      → is_stage_pairwise task.stage ≡ true
      → (is_pair_running row.state || is_pair_failed row.state) ≡ true
      → (let pairs = update (of_creator creator_id) (finish_pair schema brief now) t.pairs in
          recompute_pair_failure_task pairs task ≡ ok (sibling, failed))
      → IsConsistent schema task t
      → let pairs = update (of_creator creator_id) (finish_pair schema brief now) t.pairs in
        let next = recounted now pairs (settled_task matches sibling failed) in
        IsConsistent schema next (record t { task = some next; pairs = pairs })
  unfolding is_published recounted settled_task task_check
  succeeded-IsConsistent failed now creator_id row brief matches sibling found live stage_is
        open_row recomputed inv =
      let pairs = update (of_creator creator_id) (finish_pair schema brief now) t.pairs in
      let row_checked =
        all-find pair_check (of_creator creator_id) t.pairs inv.pairs_checked found in
      let kept =
        all-update pair_check (of_creator creator_id) (finish_pair schema brief now) t.pairs
          inv.pairs_checked found (finish_pair-check schema brief now row row_checked open_row) in
      let effect = recompute-Recomputed pairs task failed sibling kept recomputed in ground arith

  pub failed_one-IsConsistent :
      (failed : MatchTask) (now : Timestamp) (creator_id : Uuid) (row : MatchPairwiseRecord)
      (failure : PairwiseTerminalFailure) (sibling : Bool)
      → find (of_creator creator_id) t.pairs ≡ some row
      → is_pair_succeeded row.state ≡ false
      → is_status_succeeded task.status ≡ false
      → (let pairs = update (of_creator creator_id) (failed_pair failure now) t.pairs in
          recompute_pair_failure_task pairs task ≡ ok (sibling, failed))
      → IsConsistent schema task t
      → let pairs = update (of_creator creator_id) (failed_pair failure now) t.pairs in
        let next = record failed { updated_at = now } in
        IsConsistent schema next (record t { task = some next; pairs = pairs })
  unfolding is_published task_check valid_succeeded_record
  failed_one-IsConsistent failed now creator_id row failure sibling found unfinished open_task
        recomputed inv =
      let pairs = update (of_creator creator_id) (failed_pair failure now) t.pairs in
      let kept =
        all-update pair_check (of_creator creator_id) (failed_pair failure now) t.pairs
          inv.pairs_checked found (failed_pair-check failure now row) in
      let effect = recompute-Recomputed pairs task failed sibling kept recomputed in
      ground
        (arith, all-find (valid_succeeded_record schema) (of_creator creator_id) t.pairs {x = row})

  pub failed_settled-IsConsistent :
      (now : Timestamp) (creator_id : Uuid) (row : MatchPairwiseRecord)
      (failure : PairwiseTerminalFailure)
      → find (of_creator creator_id) t.pairs ≡ some row
      → is_pair_succeeded row.state ≡ false
      → IsConsistent schema task t
      → IsConsistent schema task
          (record t { pairs = update (of_creator creator_id) (failed_pair failure now) t.pairs })
  unfolding is_published valid_succeeded_record
  failed_settled-IsConsistent now creator_id row failure found unfinished inv =
      let kept =
        all-update pair_check (of_creator creator_id) (failed_pair failure now) t.pairs
          inv.pairs_checked found (failed_pair-check failure now row) in
      ground
        (arith, all-find (valid_succeeded_record schema) (of_creator creator_id) t.pairs {x = row})
