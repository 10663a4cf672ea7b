-- ===== src/Match/Worker/Executor.antt =====
-- `MatchTaskExecutor.advance` of backend/app/workers/match_tasks.py. `delivered` tells
-- whether the dispatcher sends the message; a message that cannot be sent raises.
use find_me_gamer.Prelude.{
  ◌≡◌, ap, ◌∙◌, Bool, true, false, some, arith, ◌==◌, length, if◌then◌else◌,
}
use find_me_gamer.Result.{transient, Result, ok, err, ◌>>=◌, require, raise_if}
use find_me_gamer.Match.Model.{
  Uuid, Timestamp, Clock, MatchTask, MatchTables, BriefSchema, selected_ids,
}
use find_me_gamer.Match.Pairwise.Brief.{require_uuid, aware_utc}
use find_me_gamer.Match.Worker.Enqueue.{
  ready_for_ranking, is_markable, is_compensable, enqueued, compensated, mark_task, compensate_task,
  mark_ranking_enqueued, compensate_ranking_enqueue,
}

-- The end of the `except` clause of `advance`, after the compensation from the rows t.
unfoldable pub raise_undelivered :
    MatchTables → Result (Bool × MatchTables) → Result Bool × MatchTables
raise_undelivered t (err failure) = (err failure, t)
raise_undelivered t (ok (changed, u)) = (err (transient "match_queue_unavailable"), u)

-- `advance` after `mark_ranking_enqueued` from the rows t.
unfoldable pub deliver :
    Bool → Clock → Uuid → MatchTables → Result (Bool × MatchTables) → Result Bool × MatchTables
unfolding raise_undelivered
deliver delivered clock task_id t (err failure) = (err failure, t)
deliver delivered clock task_id t (ok (false, u)) = (ok false, u)
deliver delivered clock task_id t (ok (true, u)) =
    if delivered
    then (ok true, u)
    else raise_undelivered u (compensate_ranking_enqueue clock task_id u)

unfoldable pub advance :
    BriefSchema → Bool → Clock → Clock → Uuid → MatchTables → Result Bool × MatchTables
unfolding deliver
advance schema delivered at_mark at_compensation task_id t =
    deliver delivered at_compensation task_id t (mark_ranking_enqueued schema at_mark task_id t)

-- Compensating what was just enqueued restores the gate's condition.
gate-reopens :
    (schema : BriefSchema) (now later : Timestamp) (task : MatchTask) (t : MatchTables)
    → is_markable schema task t ≡ true
    → is_markable schema
        (compensated later t.pairs (enqueued now (length (selected_ids t.screening)) task))
        t
      ≡ true
unfolding is_markable ready_for_ranking compensated enqueued
gate-reopens schema now later task t markable = ground arith

is_compensable-enqueued :
    (schema : BriefSchema) (now : Timestamp) (task : MatchTask) (t : MatchTables)
    → is_markable schema task t ≡ true
    → is_compensable (enqueued now (length (selected_ids t.screening)) task) ≡ true
unfolding is_markable is_compensable enqueued
is_compensable-enqueued schema now task t markable = ground arith

marked :
    (schema : BriefSchema) (now : Timestamp) (task_id : Uuid) (task : MatchTask) (t : MatchTables)
    → (task_id == 0) ≡ false
    → t.task ≡ some task
    → is_markable schema task t ≡ true
    → mark_ranking_enqueued schema (some now) task_id t
      ≡ ok (true, record t { task = some (enqueued now (length (selected_ids t.screening)) task) })
unfolding mark_ranking_enqueued mark_task require_uuid aware_utc require raise_if ◌>>=◌
marked schema now task_id task t named task_is markable = rw named (rw task_is (rw markable))

taken_back :
    (later : Timestamp) (task_id : Uuid) (task : MatchTask) (t : MatchTables)
    → (task_id == 0) ≡ false
    → is_compensable task ≡ true
    → compensate_ranking_enqueue (some later) task_id (record t { task = some task })
      ≡ ok (true, record t { task = some (compensated later t.pairs task) })
unfolding compensate_ranking_enqueue compensate_task require_uuid aware_utc require raise_if ◌>>=◌
taken_back later task_id task t named compensable = rw named (rw compensable)

-- At aware times and for an identity that is not nil: where a task is ready for its ranking and
-- the message cannot be sent, `advance` raises the retryable `match_queue_unavailable`, changes
-- nothing but the task, and leaves the task ready again, so that the retried `advance` can pass.
pub advance-undelivered :
    (schema : BriefSchema) (now later : Timestamp) (task_id : Uuid) (task : MatchTask)
    (t : MatchTables)
    → (task_id == 0) ≡ false
    → t.task ≡ some task
    → is_markable schema task t ≡ true
    → (next : MatchTask) × (advance schema false (some now) (some later) task_id t
        ≡ (err (transient "match_queue_unavailable"), record t { task = some next }))
      × (is_markable schema next t ≡ true)
unfolding advance deliver raise_undelivered
advance-undelivered schema now later task_id task t named task_is markable =
    let sent = enqueued now (length (selected_ids t.screening)) task in
    (
      compensated later t.pairs sent,
      ap (deliver false (some later) task_id t)
            (marked schema now task_id task t named task_is markable)
          ∙ ap (raise_undelivered (record t { task = some sent })) (
              taken_back later task_id sent t named
                (is_compensable-enqueued schema now task t markable)),
      gate-reopens schema now later task t markable,
    )
