-- ===== src/Match/Lifecycle/Reopened.antt =====
-- Undoing a ranking enqueue whose publication failed, and enqueueing again
-- (`compensate_ranking_enqueue` and `mark_ranking_enqueued` of backend/app/workers/match_tasks.py).
use find_me_gamer.Prelude.{◌≡◌, refl, true, false, some, ◌==◌, is_some, length, arith}
use find_me_gamer.Result.{ok, ◌>>=◌, raise_if, require}
use find_me_gamer.Match.Model.{
  Uuid, Timestamp, MatchTask, MatchTables, BriefSchema, is_status_running, is_stage_ranking,
  selected_ids,
}
use find_me_gamer.Match.Pairwise.Brief.{require_uuid, aware_utc}
use find_me_gamer.Match.Worker.Enqueue.{
  ready_for_ranking, is_markable, is_compensable, enqueued, compensated, mark_task, compensate_task,
  mark_ranking_enqueued, compensate_ranking_enqueue,
}
use find_me_gamer.Match.Lifecycle.Invariant.{IsConsistent}

module _ (schema : BriefSchema) where
  -- The state that one compensation leaves is ready to be enqueued again.
  compensated-is_markable :
      (now : Timestamp) (task : MatchTask) (t : MatchTables)
      → IsConsistent schema task t
      → is_status_running task.status ≡ true
      → is_stage_ranking task.stage ≡ true
      → is_markable schema
          (compensated now t.pairs task)
          (record t { task = some (compensated now t.pairs task) })
        ≡ true
  unfolding is_markable ready_for_ranking compensated
  compensated-is_markable now task t inv running in_ranking =
      let decision = inv.decided (ground arith) in
      let complete = inv.ranked in_ranking in
      ground (arith, decision.1, decision.2, decision.3, decision.4, complete.0, complete.1)

  -- At aware times and for an identity that is not nil: where the enqueued ranking of a consistent
  -- running task could not be sent, the compensation takes the gate back, and the next
  -- `mark_ranking_enqueued` passes it again: the two together change nothing but the stage's count
  -- and the times.
  pub compensate-mark :
      (now later : Timestamp) (task_id : Uuid) (task : MatchTask) (t : MatchTables)
      → (task_id == 0) ≡ false
      → t.task ≡ some task
      → IsConsistent schema task t
      → is_status_running task.status ≡ true
      → is_stage_ranking task.stage ≡ true
      → is_some task.ranking_enqueued_at ≡ true
      → (u : MatchTables) × (compensate_ranking_enqueue (some now) task_id t ≡ ok (true, u))
        × (mark_ranking_enqueued schema (some later) task_id u
            ≡ ok (
              true,
              record t { task = some (enqueued later (length (selected_ids t.screening)) task) },
            ))
  unfolding compensate_ranking_enqueue compensate_task mark_ranking_enqueued mark_task require_uuid
      aware_utc ◌>>=◌ raise_if require
  compensate-mark now later task_id task t named task_is inv running in_ranking due =
      let opened : is_compensable task ≡ true = unfold is_compensable in ground arith in
      let again = compensated-is_markable now task t inv running in_ranking in
      (
        record t { task = some (compensated now t.pairs task) },
        rw named (rw task_is (rw opened)),
        rw named (rw again (unfold enqueued compensated in refl)),
      )
