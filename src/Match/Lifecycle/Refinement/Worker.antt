-- ===== src/Match/Lifecycle/Refinement/Worker.antt =====
-- The store of backend/app/workers/match_tasks.py against the moves of a Match task.
use find_me_gamer.Prelude.{◌≡◌, refl, true, false, not, ◌||◌, Option, none, some, List, find, arith}
use find_me_gamer.Result.{returned, Ensures-raise_if, Ensures-if, Ensures-require, Ensures-bind}
use find_me_gamer.Match.Model.{
  Uuid, Clock, MatchStatus, MatchTask, MatchPairwiseRecord, MatchTables, BriefSchema,
  is_status_running, is_status_failed, is_status_queued, is_status_succeeded, is_status_superseded,
}
use find_me_gamer.Match.Pairwise.Brief.{of_creator, aware_utc}
use find_me_gamer.Match.Screening.{ScreeningSchema}
use find_me_gamer.Match.Worker.Codes.{PairwiseTerminalFailure}
use find_me_gamer.Match.Worker.Fail.{failed_task, fail_found, fail_found_task, fail_pair, fail_task}
use find_me_gamer.Match.Worker.Prepare.{is_ranking_redelivery, prepare_task, prepare}
use find_me_gamer.Match.Worker.Enqueue.{
  is_markable, is_compensable, mark_task, compensate_task, mark_ranking_enqueued,
  compensate_ranking_enqueue,
}
use find_me_gamer.Match.Lifecycle.Moves.{
  stay, prepare_pairs, fail_one, fail_settled, fail_whole, enqueue_ranking, compensate,
}
use find_me_gamer.Match.Lifecycle.Refinement.{Moves}

live_status :
    (s : MatchStatus)
    → (is_status_succeeded s || is_status_superseded s || is_status_failed s) ≡ false
    → (is_status_queued s || is_status_running s) ≡ true
live_status s h = ground arith

module _ (schema : BriefSchema) (screening_schema : ScreeningSchema) where
  fail_found-Moves :
      (clock : Clock) (creator_id : Uuid) (failure : PairwiseTerminalFailure) (t : MatchTables)
      (found_task : Option MatchTask) (found_row : Option MatchPairwiseRecord)
      → t.task ≡ found_task
      → find (of_creator creator_id) t.pairs ≡ found_row
      → Moves schema screening_schema t (fail_found clock creator_id failure found_task found_row t)
  unfolding fail_found
  fail_found-Moves clock creator_id failure t none row task_is row_is = returned (stay t)
  fail_found-Moves clock creator_id failure t (some task) none task_is row_is = returned (stay t)
  fail_found-Moves clock creator_id failure t (some task) (some row) task_is row_is =
      Ensures-if _ _ _ (λ _. returned (stay t))
        λ unfinished. Ensures-bind _ _ λ now _.
          Ensures-if _ _ _
            (λ settled.
              returned
                (fail_settled t task now creator_id row failure task_is row_is unfinished settled))
            (λ unsettled. Ensures-bind _ _ λ answer recomputed. returned (
              fail_one t task answer.1 now creator_id row failure answer.0 task_is row_is unfinished
                (ground arith) recomputed))

  pub fail_pair-Moves :
      (clock : Clock) (task_id creator_id : Uuid) (failure : PairwiseTerminalFailure)
      (t : MatchTables)
      → Moves schema screening_schema t (fail_pair clock task_id creator_id failure t)
  unfolding fail_pair
  fail_pair-Moves clock task_id creator_id failure t = Ensures-raise_if _ _ _ λ _.
      Ensures-raise_if _ _ _ λ _.
        fail_found-Moves clock creator_id failure t t.task (find (of_creator creator_id) t.pairs)
          refl refl

  fail_found_task-Moves :
      (clock : Clock) (failure : PairwiseTerminalFailure) (t : MatchTables)
      (found_task : Option MatchTask)
      → t.task ≡ found_task
      → Moves schema screening_schema t (fail_found_task clock failure found_task t)
  unfolding fail_found_task aware_utc failed_task
  fail_found_task-Moves clock failure t none task_is = returned (stay t)
  fail_found_task-Moves clock failure t (some task) task_is =
      Ensures-if _ _ _ (λ _. returned (stay t))
        λ live.
          Ensures-bind _ _
            λ now _. returned (fail_whole t task now failure task_is (live_status task.status live))

  pub fail_task-Moves :
      (clock : Clock) (task_id : Uuid) (failure : PairwiseTerminalFailure) (t : MatchTables)
      → Moves schema screening_schema t (fail_task clock task_id failure t)
  unfolding fail_task
  fail_task-Moves clock task_id failure t =
      Ensures-raise_if _ _ _ λ _. fail_found_task-Moves clock failure t t.task refl

  valid_creators-Moves :
      (clock : Clock) (creators : List Uuid) (task : MatchTask) (t : MatchTables)
      → t.task ≡ some task
      → Moves schema screening_schema t (prepare_task schema clock creators task t)
  unfolding prepare_task
  valid_creators-Moves clock creators task t task_is = Ensures-raise_if _ _ _ λ preparable.
      Ensures-raise_if _ _ _ λ _. Ensures-raise_if _ _ _ λ _.
        Ensures-if (is_ranking_redelivery task) _ _
          (λ _. Ensures-raise_if _ _ _ λ _. returned (stay t))
          (λ fresh.
            Ensures-bind _ _
              λ now _. returned (prepare_pairs t task now task_is (ground arith) (ground arith)))

  pub prepare-Moves :
      (clock : Clock) (task_id : Uuid) (creators : List Uuid) (t : MatchTables)
      → Moves schema screening_schema t (prepare schema clock task_id creators t)
  unfolding prepare
  prepare-Moves clock task_id creators t = Ensures-raise_if _ _ _ λ _. Ensures-raise_if _ _ _ λ _.
      Ensures-require _ _ _ λ task task_is.
        Ensures-if (is_status_succeeded task.status) _ _ (λ _. returned (stay t))
          (λ _. valid_creators-Moves clock creators task t task_is)

  mark_task-Moves :
      (clock : Clock) (found : Option MatchTask) (t : MatchTables)
      → t.task ≡ found
      → Moves schema screening_schema t (mark_task schema clock found t)
  unfolding mark_task
  mark_task-Moves clock none t task_is = returned (stay t)
  mark_task-Moves clock (some task) t task_is =
      Ensures-if (not (is_markable schema task t)) _ _ (λ _. returned (stay t))
        λ markable. Ensures-bind _ _ λ now _.
          returned (enqueue_ranking t task now task_is (ground arith) (ground arith) (ground arith))

  pub mark_ranking_enqueued-Moves :
      (clock : Clock) (task_id : Uuid) (t : MatchTables)
      → Moves schema screening_schema t (mark_ranking_enqueued schema clock task_id t)
  unfolding mark_ranking_enqueued
  mark_ranking_enqueued-Moves clock task_id t =
      Ensures-raise_if _ _ _ λ _. mark_task-Moves clock t.task t refl

  compensate_task-Moves :
      (clock : Clock) (found : Option MatchTask) (t : MatchTables)
      → t.task ≡ found
      → Moves schema screening_schema t (compensate_task clock found t)
  unfolding compensate_task
  compensate_task-Moves clock none t task_is = returned (stay t)
  compensate_task-Moves clock (some task) t task_is =
      Ensures-if (not (is_compensable task)) _ _ (λ _. returned (stay t))
        λ compensable.
          Ensures-bind _ _
            λ now _. returned (compensate t task now task_is (ground arith) (ground arith))

  pub compensate_ranking_enqueue-Moves :
      (clock : Clock) (task_id : Uuid) (t : MatchTables)
      → Moves schema screening_schema t (compensate_ranking_enqueue clock task_id t)
  unfolding compensate_ranking_enqueue
  compensate_ranking_enqueue-Moves clock task_id t =
      Ensures-raise_if _ _ _ λ _. compensate_task-Moves clock t.task t refl
