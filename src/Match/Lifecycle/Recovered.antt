-- ===== src/Match/Lifecycle/Recovered.antt =====
-- A success that is applied after the same pair was reported as failed
-- (`fail_pair` of backend/app/workers/match_tasks.py, `apply_success` of
-- backend/app/matching/pairwise.py).
use find_me_gamer.Prelude.{
  ℕ, ◌≡◌, refl, ap, true, false, ◌||◌, some, List, [], ◌==◌, find, update, all-find, max, arith,
}
use find_me_gamer.Result.{ok, ◌>>=◌, raise_if, require, bind_congr}
use find_me_gamer.Match.Model.{
  Uuid, Timestamp, MatchStatus, MatchTask, MatchPairwiseRecord, MatchTables, PairwiseMatchBrief,
  BriefSchema, is_status_running, is_status_succeeded, is_status_superseded, is_stage_pairwise,
  is_pair_succeeded, is_pair_failed, is_pair_running,
}
use find_me_gamer.Match.Pairwise.Brief.{of_creator, require_uuid, aware_utc, revalidated_brief}
use find_me_gamer.Match.Pairwise.Failure.{recompute_pair_failure_task}
use find_me_gamer.Match.Pairwise.Apply.{
  finish_pair, failed_task_matches_record, apply_unfinished, apply_success, settled_task, recounted,
}
use find_me_gamer.Match.Worker.Codes.{PairwiseTerminalFailure}
use find_me_gamer.Match.Worker.Fail.{fail_unfinished, failed_pair, fail_found, fail_pair}
use find_me_gamer.Match.Constraints.{task_check, pair_check}
use find_me_gamer.Match.Lifecycle.Invariant.{IsConsistent}
use find_me_gamer.Prelude.{
  find-passes, find-update, update-update, filter-update_selected, filter-update_rejected,
}
use find_me_gamer.Prelude.{str_eq_refl}
use find_me_gamer.Match.Pairwise.Failure.{failed_records, recompute_from, aggregate_failure}

-- The task whose one failed pair failed at that time.
abbrev broken : PairwiseTerminalFailure → Timestamp → MatchTask → MatchTask
broken failure now task = record task {
  status = MatchStatus.failed;
  error_code = some failure.code;
  error_message = some failure.message;
  retryable = failure.retryable;
  completed_at = some now;
  result_count = 0;
}

max_self : (n : ℕ) → max n n ≡ n
max_self n = omega arith

broken-recomputed :
    (failure : PairwiseTerminalFailure) (now : Timestamp) (creator_id : Uuid) (task : MatchTask)
    (row : MatchPairwiseRecord) (pairs : List MatchPairwiseRecord)
    → failed_records pairs ≡ []
    → find (of_creator creator_id) pairs ≡ some row
    → recompute_pair_failure_task
        (update (of_creator creator_id) (failed_pair failure now) pairs)
        task
      ≡ ok (true, broken failure now task)
unfolding recompute_pair_failure_task failed_records recompute_from aggregate_failure failed_pair
    ◌>>=◌ require
broken-recomputed failure now creator_id task row pairs alone found =
    rw
      (filter-update_selected (λ r. is_pair_failed r.state) (of_creator creator_id)
        (failed_pair failure now) pairs {x = row} alone found refl)
      (rw (max_self now) (ground arith))

recomputed_none :
    (pairs : List MatchPairwiseRecord) (task : MatchTask)
    → failed_records pairs ≡ []
    → recompute_pair_failure_task pairs task ≡ ok (false, task)
unfolding recompute_pair_failure_task recompute_from
recomputed_none pairs task none_failed = rw none_failed

-- The task's failure is the failure of the row.
broken-matches :
    (failure : PairwiseTerminalFailure) (now : Timestamp) (task : MatchTask)
    (row : MatchPairwiseRecord)
    → failed_task_matches_record
        (record (broken failure now task) { updated_at = now })
        (failed_pair failure now row)
      ≡ true
unfolding failed_task_matches_record failed_pair
broken-matches failure now task row =
    rw (str_eq_refl failure.code) (rw (str_eq_refl failure.message) (ground arith))

unmatched :
    (task : MatchTask) (row : MatchPairwiseRecord)
    → is_status_running task.status ≡ true
    → failed_task_matches_record task row ≡ false
unfolding failed_task_matches_record
unmatched task row running = ground arith

-- Reopening it gives what the success alone gives.
broken-settled :
    (failure : PairwiseTerminalFailure) (now later : Timestamp) (task : MatchTask)
    (pairs : List MatchPairwiseRecord)
    → is_status_running task.status ≡ true
    → is_stage_pairwise task.stage ≡ true
    → task.result_count ≡ 0
    → task_check task ≡ true
    → recounted later pairs
        (settled_task true false (record (broken failure now task) { updated_at = now }))
      ≡ recounted later pairs (settled_task false false task)
unfolding recounted settled_task task_check
broken-settled failure now later task pairs running in_pairwise unpublished checked = ground arith

module _ (schema : BriefSchema) where
  -- Of a row that was running, the failure leaves no trace in the finished row.
  finished-failed :
      (brief : PairwiseMatchBrief) (failure : PairwiseTerminalFailure) (now later : Timestamp)
      (row : MatchPairwiseRecord)
      → is_pair_running row.state ≡ true
      → pair_check row ≡ true
      → finish_pair schema brief later (failed_pair failure now row)
        ≡ finish_pair schema brief later row
  unfolding finish_pair failed_pair pair_check
  finished-failed brief failure now later row running checked = ground arith

  recovered :
      (brief : PairwiseMatchBrief) (failure : PairwiseTerminalFailure) (now later : Timestamp)
      (creator_id : Uuid) (task : MatchTask) (row : MatchPairwiseRecord) (t : MatchTables)
      → find (of_creator creator_id) t.pairs ≡ some row
      → failed_records t.pairs ≡ []
      → is_status_running task.status ≡ true
      → is_stage_pairwise task.stage ≡ true
      → task.result_count ≡ 0
      → task_check task ≡ true
      → is_pair_running row.state ≡ true
      → pair_check row ≡ true
      → apply_unfinished schema
          (some later)
          brief
          creator_id
          (record (broken failure now task) { updated_at = now })
          (failed_pair failure now row)
          (record t {
            task = some (record (broken failure now task) { updated_at = now });
            pairs = update (of_creator creator_id) (failed_pair failure now) t.pairs;
          })
        ≡ apply_unfinished schema (some later) brief creator_id task row t
  unfolding apply_unfinished failed_pair aware_utc require ◌>>=◌ raise_if
  recovered brief failure now later creator_id task row t found alone running in_pairwise
        unpublished checked claimed row_checked =
      let reported = record (broken failure now task) { updated_at = now } in
      let done = update (of_creator creator_id) (finish_pair schema brief later) t.pairs in
      let same_rows : update (of_creator creator_id) (finish_pair schema brief later)
            (update (of_creator creator_id) (failed_pair failure now) t.pairs)
          ≡ update (of_creator creator_id) (finish_pair schema brief later) t.pairs =
        update-update (λ r. true) (of_creator creator_id) (failed_pair failure now)
          (finish_pair schema brief later) t.pairs {x = row} found
          (unfold failed_pair in find-passes (of_creator creator_id) t.pairs {x = row} found)
          (finished-failed brief failure now later row claimed row_checked) in
      let none_failed : failed_records done ≡ [] =
        unfold failed_records in
        filter-update_rejected (λ r. is_pair_failed r.state) (of_creator creator_id)
          (finish_pair schema brief later) t.pairs {x = row} alone found
          (unfold finish_pair in refl) in
      rw same_rows (
        rw (broken-matches failure now task row) (
          rw (recomputed_none done reported none_failed) (
            rw (recomputed_none done task none_failed) (
              rw in_pairwise (
                rw claimed (
                  rw running (
                    rw (unmatched task row running) (
                      ap
                        (λ (settled : MatchTask).
                          ok (brief, record t { task = some settled; pairs = done }))
                        (broken-settled failure now later task done running in_pairwise unpublished
                          checked)))))))))

  -- At aware times and for identities that are not nil: in the pairwise stage of a consistent
  -- running task that no pair has failed, and that has no result yet, a running pair is reported
  -- as failed, and its success is applied afterwards: the report is accepted, and the success then
  -- has the same outcome, in its answer and in all rows, as it has without the report.
  pub fail_pair-apply_success :
      (now later : Timestamp) (task_id creator_id : Uuid) (brief : PairwiseMatchBrief)
      (failure : PairwiseTerminalFailure) (task : MatchTask) (row : MatchPairwiseRecord)
      (t : MatchTables)
      → (task_id == 0) ≡ false
      → (creator_id == 0) ≡ false
      → t.task ≡ some task
      → find (of_creator creator_id) t.pairs ≡ some row
      → IsConsistent schema task t
      → failed_records t.pairs ≡ []
      → is_status_running task.status ≡ true
      → is_stage_pairwise task.stage ≡ true
      → task.result_count ≡ 0
      → is_pair_running row.state ≡ true
      → (u : MatchTables) × (fail_pair (some now) task_id creator_id failure t ≡ ok (true, u))
        × (apply_success schema (some later) task_id creator_id brief u
            ≡ apply_success schema (some later) task_id creator_id brief t)
  unfolding fail_pair fail_found fail_unfinished apply_success failed_pair require_uuid aware_utc
      require raise_if ◌>>=◌
  fail_pair-apply_success now later task_id creator_id brief failure task row t named paired task_is
        found inv alone running in_pairwise unpublished claimed =
      let reported = record (broken failure now task) { updated_at = now } in
      let row_checked =
        all-find pair_check (of_creator creator_id) t.pairs {x = row} inv.pairs_checked found in
      let unfinished : is_pair_succeeded row.state ≡ false = ground arith in
      let open_task : (is_status_succeeded task.status || is_status_superseded task.status)
          ≡ false =
        ground arith in
      let still_found : find (of_creator creator_id)
            (update (of_creator creator_id) (failed_pair failure now) t.pairs)
          ≡ some (failed_pair failure now row) =
        find-update (λ r. true) (of_creator creator_id) (failed_pair failure now) t.pairs {x = row}
          found
          (unfold failed_pair in find-passes (of_creator creator_id) t.pairs {x = row} found) in
      (
        record t {
          task = some reported;
          pairs = update (of_creator creator_id) (failed_pair failure now) t.pairs;
        },
        rw named (
            rw paired (
              rw task_is (
                rw found (
                  rw unfinished (
                    rw open_task (
                      rw (
                        broken-recomputed failure now creator_id task row t.pairs alone
                          found))))))),
        rw named (
            rw paired (
              bind_congr (revalidated_brief schema brief creator_id) _ _ (λ validated.
                rw still_found (
                  rw task_is (
                    rw found (
                      rw unfinished (
                        recovered validated failure now later creator_id task row t found alone
                          running in_pairwise unpublished inv.task_checked claimed
                          row_checked))))))),
      )
