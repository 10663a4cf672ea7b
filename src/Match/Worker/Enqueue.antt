-- ===== src/Match/Worker/Enqueue.antt =====
-- `MatchTaskStore.mark_ranking_enqueued` and `compensate_ranking_enqueue` of
-- backend/app/workers/match_tasks.py: the gate between the pairwise stage and the ranking stage.
use find_me_gamer.Prelude.{
  ℕ, ◌+◌, Bool, true, false, not, ◌&&◌, Option, none, some, List, ◌==◌, is_some, is_none,
  if◌then◌else◌, all, is_empty, length, count_if, min,
}
use find_me_gamer.Prelude.Sets.{same_set}
use find_me_gamer.Result.{Result, ok, ◌>>=◌, ◌>>◌}
use find_me_gamer.Match.Model.{
  MatchPairwiseRecord, Uuid, Timestamp, Clock, pairwise, ranking, MatchTask, MatchTables,
  BriefSchema, is_status_running, is_stage_pairwise, is_stage_ranking, is_pair_succeeded,
  selected_ids, candidate_ids, pair_ids,
}
use find_me_gamer.Match.Pairwise.Brief.{require_uuid, aware_utc}
use find_me_gamer.Match.Worker.Prepare.{valid_succeeded_record}

-- Every selected Creator has a candidate input and one valid brief. The selected identities come
-- from rows that are unique by Creator, so the set has as many members as the list.
unfoldable pub ready_for_ranking : BriefSchema → MatchTask → MatchTables → Bool
unfolding valid_succeeded_record
ready_for_ranking schema task t =
    let selected = selected_ids t.screening in
    not (is_empty selected)
    && same_set (candidate_ids t.candidates) selected
    && same_set (pair_ids t.pairs) selected
    && task.total_units == length selected + 2
    && all (valid_succeeded_record schema) t.pairs

unfoldable pub enqueued : Timestamp → ℕ → MatchTask → MatchTask
enqueued now count task = record task {
  stage = ranking;
  completed_units = count + 1;
  ranking_enqueued_at = some now;
  updated_at = now;
}

-- The guard of `mark_ranking_enqueued`.
unfoldable pub is_markable : BriefSchema → MatchTask → MatchTables → Bool
unfolding ready_for_ranking
is_markable schema task t =
    is_status_running task.status
    && is_stage_pairwise task.stage
    && is_none task.ranking_enqueued_at
    && ready_for_ranking schema task t

unfoldable pub mark_task :
    BriefSchema → Clock → Option MatchTask → MatchTables → Result (Bool × MatchTables)
unfolding is_markable enqueued aware_utc
mark_task schema clock none t = ok (false, t)
mark_task schema clock (some task) t =
    if not (is_markable schema task t) then ok (false, t) else (do
      now ← aware_utc clock
      ok (true, record t { task = some (enqueued now (length (selected_ids t.screening)) task) }))

unfoldable pub mark_ranking_enqueued :
    BriefSchema → Clock → Uuid → MatchTables → Result (Bool × MatchTables)
unfolding mark_task require_uuid
mark_ranking_enqueued schema clock task_id t = do
  require_uuid task_id
  mark_task schema clock t.task t

unfoldable pub compensated : Timestamp → List MatchPairwiseRecord → MatchTask → MatchTask
compensated now pairs task = record task {
  stage = pairwise;
  completed_units = min (1 + count_if (λ r. is_pair_succeeded r.state) pairs) task.total_units;
  ranking_enqueued_at = none;
  updated_at = now;
}

-- The guard of `compensate_ranking_enqueue`.
unfoldable pub is_compensable : MatchTask → Bool
is_compensable task =
    is_status_running task.status && is_stage_ranking task.stage && is_some task.ranking_enqueued_at

unfoldable pub compensate_task :
    Clock → Option MatchTask → MatchTables → Result (Bool × MatchTables)
unfolding is_compensable aware_utc compensated
compensate_task clock none t = ok (false, t)
compensate_task clock (some task) t = if not (is_compensable task) then ok (false, t) else (do
  now ← aware_utc clock
  ok (true, record t { task = some (compensated now t.pairs task) }))

unfoldable pub compensate_ranking_enqueue : Clock → Uuid → MatchTables → Result (Bool × MatchTables)
unfolding compensate_task require_uuid
compensate_ranking_enqueue clock task_id t = do require_uuid task_id; compensate_task clock t.task t
