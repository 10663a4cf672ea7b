-- ===== src/Match/Lifecycle/Invariant/Task.antt =====
-- The moves that change the task alone and the invariant.
use find_me_gamer.Prelude.{◌≡◌, true, ◌||◌, some, length, arith}
use find_me_gamer.Match.Model.{
  Timestamp, MatchTask, MatchTables, BriefSchema, is_status_running, is_status_queued,
  is_stage_screening, is_stage_pairwise, is_stage_ranking, selected_ids,
}
use find_me_gamer.Match.Screening.{running_task}
use find_me_gamer.Match.Worker.Codes.{PairwiseTerminalFailure}
use find_me_gamer.Match.Worker.Fail.{failed_task}
use find_me_gamer.Match.Worker.Enqueue.{ready_for_ranking, enqueued, compensated}
use find_me_gamer.Match.Ranking.Inputs.{is_published}
use find_me_gamer.Match.Constraints.{task_check}
use find_me_gamer.Match.Lifecycle.Invariant.{IsConsistent}

module _ (schema : BriefSchema) (t : MatchTables) (task : MatchTask) where
  pub started-IsConsistent :
      (now : Timestamp)
      → is_stage_screening task.stage ≡ true
      → is_status_queued task.status ≡ true
      → IsConsistent schema task t
      → IsConsistent schema
          (running_task now task)
          (record t { task = some (running_task now task) })
  unfolding running_task task_check is_published
  started-IsConsistent now stage_is queued inv = ground arith

  pub failed-IsConsistent :
      (now : Timestamp) (failure : PairwiseTerminalFailure)
      → (is_status_queued task.status || is_status_running task.status) ≡ true
      → IsConsistent schema task t
      → IsConsistent schema
          (failed_task failure now task)
          (record t { task = some (failed_task failure now task) })
  unfolding failed_task task_check is_published
  failed-IsConsistent now failure live inv = ground arith

  pub enqueued-IsConsistent :
      (now : Timestamp)
      → is_status_running task.status ≡ true
      → is_stage_pairwise task.stage ≡ true
      → ready_for_ranking schema task t ≡ true
      → IsConsistent schema task t
      → let next = enqueued now (length (selected_ids t.screening)) task in
        IsConsistent schema next (record t { task = some next })
  unfolding enqueued task_check is_published ready_for_ranking
  enqueued-IsConsistent now running stage_is ready inv = ground arith

  pub compensated-IsConsistent :
      (now : Timestamp)
      → is_status_running task.status ≡ true
      → is_stage_ranking task.stage ≡ true
      → IsConsistent schema task t
      → IsConsistent schema
          (compensated now t.pairs task)
          (record t { task = some (compensated now t.pairs task) })
  unfolding compensated task_check is_published
  compensated-IsConsistent now running stage_is inv = ground arith
