-- ===== src/Match/Lifecycle/Refinement/Pairwise.antt =====
-- The operations of backend/app/matching/pairwise.py against the moves of a Match task.
use find_me_gamer.Prelude.{◌≡◌, some, find, arith}
use find_me_gamer.Result.{
  ok, ◌>>=◌, require, returned, Ensures-raise_if, Ensures-if, Ensures-require, Ensures-bind,
}
use find_me_gamer.Match.Model.{
  Uuid, Clock, MatchTask, MatchPairwiseRecord, MatchTables, PairwiseMatchBrief, BriefSchema,
  is_pair_succeeded,
}
use find_me_gamer.Match.Pairwise.Brief.{of_creator, revalidated_brief}
use find_me_gamer.Match.Pairwise.Claim.{LockedInputSchema, claim}
use find_me_gamer.Match.Pairwise.Apply.{failed_task_matches_record, apply_unfinished, apply_success}
use find_me_gamer.Match.Screening.{ScreeningSchema}
use find_me_gamer.Match.Lifecycle.Moves.{stay, claim_pair, succeed_pair}
use find_me_gamer.Match.Lifecycle.Refinement.{Moves}

module _ (schema : BriefSchema) (screening_schema : ScreeningSchema) where
  pub claim-Moves :
      (locked : LockedInputSchema) (clock : Clock) (match_task_id creator_id : Uuid)
      (t : MatchTables)
      → Moves schema screening_schema t (claim schema locked clock match_task_id creator_id t)
  unfolding claim
  claim-Moves locked clock match_task_id creator_id t = Ensures-raise_if _ _ _ λ _.
      Ensures-raise_if _ _ _ λ _. Ensures-require _ _ _ λ task found_task.
        Ensures-require _ _ _ λ row found_row.
          Ensures-if _ _ _ (λ _. Ensures-bind _ _ λ _ _. returned (stay t))
            (λ unfinished. Ensures-raise_if _ _ _ λ _. Ensures-raise_if _ _ _ λ runnable.
              Ensures-require _ _ _ λ _ _. Ensures-raise_if _ _ _ λ _. Ensures-require _ _ _ λ _ _.
                Ensures-bind _ _ λ _ _. Ensures-bind _ _ λ _ _. Ensures-raise_if _ _ _ λ _.
                  Ensures-bind _ _ λ now _. returned (
                    claim_pair t task now creator_id row found_task found_row (ground arith)
                      (ground arith) unfinished))

  revalidated_identity :
      (brief validated : PairwiseMatchBrief) (expected : Uuid)
      → revalidated_brief schema brief expected ≡ ok validated
      → validated.creator_id ≡ expected
  unfolding revalidated_brief ◌>>=◌ require
  revalidated_identity brief validated expected h = ground arith

  apply_unfinished-Moves :
      (clock : Clock) (creator_id : Uuid) (validated : PairwiseMatchBrief) (t : MatchTables)
      (task : MatchTask) (row : MatchPairwiseRecord)
      → t.task ≡ some task
      → find (of_creator creator_id) t.pairs ≡ some row
      → validated.creator_id ≡ creator_id
      → Moves schema screening_schema t
          (apply_unfinished schema clock validated creator_id task row t)
  unfolding apply_unfinished
  apply_unfinished-Moves clock creator_id validated t task row found_task found_row same =
      Ensures-raise_if _ _ _ λ allowed. Ensures-bind _ _ λ now _.
        Ensures-bind _ _ λ answer recomputed. returned (
          succeed_pair t task answer.1 now creator_id row validated
            (failed_task_matches_record task row) answer.0 found_task found_row (ground arith)
            (ground arith) (ground arith) same recomputed)

  pub apply_success-Moves :
      (clock : Clock) (match_task_id creator_id : Uuid) (brief : PairwiseMatchBrief)
      (t : MatchTables)
      → Moves schema screening_schema t
          (apply_success schema clock match_task_id creator_id brief t)
  unfolding apply_success
  apply_success-Moves clock match_task_id creator_id brief t = Ensures-raise_if _ _ _ λ _.
      Ensures-raise_if _ _ _ λ _. Ensures-bind _ _ λ validated valid.
        Ensures-require _ _ _ λ task found_task. Ensures-require _ _ _ λ row found_row.
          Ensures-if (is_pair_succeeded row.state) _ _
            (λ _. Ensures-bind _ _ λ _ _. returned (stay t))
            (λ _.
              apply_unfinished-Moves clock creator_id validated t task row found_task found_row
                (revalidated_identity brief validated creator_id valid))
