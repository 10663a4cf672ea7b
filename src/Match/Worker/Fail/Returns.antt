-- ===== src/Match/Worker/Fail/Returns.antt =====
-- At an aware time the store of backend/app/workers/match_tasks.py accepts every report of a failure.
use find_me_gamer.Prelude.{
  ◌≡◌, refl, Bool, true, false, ◌||◌, Option, none, some, List, [], ◌∷◌, is_some, find, update, all,
  inl, inr, arith, Bool-cases,
}
use find_me_gamer.Result.{ok, ◌>>=◌, require}
use find_me_gamer.Match.Model.{
  Uuid, Timestamp, MatchStatus, MatchTask, MatchPairwiseRecord, MatchTables, is_status_succeeded,
  is_status_superseded, is_status_failed, is_pair_succeeded,
}
use find_me_gamer.Match.Pairwise.Brief.{of_creator, aware_utc}
use find_me_gamer.Match.Pairwise.Failure.{
  first_in_order, latest, failed_records, aggregate_failure, recompute_from,
  recompute_pair_failure_task,
}
use find_me_gamer.Match.Worker.Codes.{PairwiseTerminalFailure}
use find_me_gamer.Match.Worker.Fail.{
  failed_pair, fail_unfinished, fail_found, failed_task, fail_found_task,
}

-- A row of a list has ended, so the latest end is known.
latest-failed :
    (failure : PairwiseTerminalFailure) (now : Timestamp) (creator_id : Uuid)
    (pairs : List MatchPairwiseRecord) {row : MatchPairwiseRecord}
    → find (of_creator creator_id) pairs ≡ some row
    → is_some
        (latest (failed_records (update (of_creator creator_id) (failed_pair failure now) pairs)))
      ≡ true
unfolding latest failed_records failed_pair
latest-failed failure now creator_id [] found = cc
latest-failed failure now creator_id (x ∷ xs) {row} found =
    ground (arith, latest-failed failure now creator_id xs {row = row})

value_of {ℓ} : {A : Type ℓ} (o : Option A) → is_some o ≡ true → (a : A) × (o ≡ some a)
value_of none h = cc
value_of (some a) h = (a, refl)

-- So the failed pairs always give their task a failure.
recompute-returns :
    (rows : List MatchPairwiseRecord) (task : MatchTask)
    → is_some (latest rows) ≡ true
    → (out : Bool × MatchTask) × (recompute_from rows task ≡ ok out)
unfolding recompute_from aggregate_failure ◌>>=◌ require
recompute-returns [] task ended = absurd (unfold latest in ground arith)
recompute-returns (row ∷ rest) task ended =
    let (completed_at, is_completed) = value_of (latest (row ∷ rest)) ended in
    (
      (
        true,
        record task {
          status = MatchStatus.failed;
          error_code = (first_in_order row rest).error_code;
          error_message = (first_in_order row rest).error_message;
          retryable = all (λ (r : MatchPairwiseRecord). r.retryable) (row ∷ rest);
          completed_at = some completed_at;
          result_count = 0;
        },
      ),
      rw is_completed refl,
    )

module _ (now : Timestamp) (failure : PairwiseTerminalFailure) where
  fail_unfinished-returns :
      (creator_id : Uuid) (task : MatchTask) (t : MatchTables) {row : MatchPairwiseRecord}
      → find (of_creator creator_id) t.pairs ≡ some row
      → (out : Bool × MatchTables) × (fail_unfinished (some now) creator_id failure task t ≡ ok out)
  unfolding fail_unfinished ◌>>=◌ require recompute_pair_failure_task
  fail_unfinished-returns creator_id task t found =
      let pairs : List MatchPairwiseRecord =
        update (of_creator creator_id) (failed_pair failure now) t.pairs in
      let ((changed, failed), made) =
        recompute-returns (failed_records pairs) task
          (latest-failed failure now creator_id t.pairs found) in
      elim (Bool-cases (is_status_succeeded task.status || is_status_superseded task.status)) [
        | inl settled ↦ ((true, record t { pairs = pairs }), rw settled refl)
        | inr open_task ↦ (
          (true, record t { task = some (record failed { updated_at = now }); pairs = pairs }),
          rw (open_task, made) refl,
        )
      ]

  pub fail_found-returns :
      (creator_id : Uuid) (task : Option MatchTask) (row : Option MatchPairwiseRecord)
      (t : MatchTables)
      → find (of_creator creator_id) t.pairs ≡ row
      → (out : Bool × MatchTables) × (fail_found (some now) creator_id failure task row t ≡ ok out)
  unfolding fail_found
  fail_found-returns creator_id none row t found = ((false, t), refl)
  fail_found-returns creator_id (some task) none t found = ((false, t), refl)
  fail_found-returns creator_id (some task) (some row) t found =
      elim (Bool-cases (is_pair_succeeded row.state)) [
        | inl done ↦ ((false, t), rw done refl)
        | inr unfinished ↦ rw unfinished (fail_unfinished-returns creator_id task t found)
      ]

  pub fail_found_task-returns :
      (task : Option MatchTask) (t : MatchTables)
      → (out : Bool × MatchTables) × (fail_found_task (some now) failure task t ≡ ok out)
  unfolding fail_found_task ◌>>=◌ require aware_utc
  fail_found_task-returns none t = ((false, t), refl)
  fail_found_task-returns (some task) t =
      elim (Bool-cases (
        is_status_succeeded task.status
        || is_status_superseded task.status
        || is_status_failed task.status)) [
          | inl closed ↦ ((false, t), rw closed refl)
          | inr live ↦
              ((true, record t { task = some (failed_task failure now task) }), rw live refl)
        ]
