-- ===== src/Match/Screening.antt =====
-- The locked screening inputs and the screening decision of a Match task
-- (backend/app/repositories/match.py, backend/app/matching/screening.py).
use find_me_gamer.Prelude.{
  ℕ, ◌+◌, Bool, true, false, not, ◌||◌, Option, none, some, List, [], ◌∷◌, String, map, ◌==◌, ltb,
  or_else, if◌then◌else◌, filter, find, is_empty, length,
}
use find_me_gamer.Prelude.Sets.{member, distinct, subset, same_set}
use find_me_gamer.Result.{
  input_error, invalid_screening, value_error, Result, ok, err, ◌>>=◌, ◌>>◌, raise_if, require,
  settle,
}
use find_me_gamer.Match.Model.{
  Uuid, Timestamp, Json, Clock, MatchStatus, screening, pairwise, MatchTask, MatchScreeningRecord,
  MatchCandidateInput, MatchTables, is_status_running, is_status_failed, is_status_queued,
  is_status_succeeded, is_status_superseded, is_stage_screening, selected_ids, candidate_ids,
  screening_ids,
}

pub record ScreeningSelection : Type 0 where
  pub creator_id : Uuid
  pub screening_reason : String
  pub evidence : List String

abbrev pub selection_ids : List ScreeningSelection → List Uuid
selection_ids = map (λ (item : ScreeningSelection). item.creator_id)

-- Pydantic at the schemas of the locked briefs and of the screening output, and the JSON text of a
-- stored reason.
pub record ScreeningSchema : Type 0 where
  pub is_game_brief : Json → Bool
  pub is_creator_brief : Json → Bool
  pub is_screening_output : List ScreeningSelection → Bool
  pub reason_json : String → List String → String

pub record LockedScreeningInput : Type 0 where
  pub game_brief : Json
  pub creators : List (Uuid × Json)
  pub applied_creator_ids : Option (List Uuid)

-- `_aware_now`
unfoldable pub aware_now : Clock → Result Timestamp
aware_now clock = require clock value_error

-- `LockedScreeningInput.__post_init__`
locked_screening_input :
    Json → List (Uuid × Json) → Option (List Uuid) → Result LockedScreeningInput
locked_screening_input game_brief creators applied = do
  raise_if (not (distinct (map (λ (c : Uuid × Json). c.0) creators))) value_error
  raise_if (elim applied [ none ↦ false | some ids ↦ not (distinct ids) ]) value_error
  ok (record { game_brief = game_brief; creators = creators; applied_creator_ids = applied })

-- A queued task starts.
unfoldable pub running_task : Timestamp → MatchTask → MatchTask
running_task now task = record task {
  status = MatchStatus.running;
  started_at = some now;
  updated_at = now;
}

-- The task after the decision, at the number of kept Creators.
unfoldable pub decided_task : Timestamp → ℕ → MatchTask → MatchTask
decided_task now kept task =
    let stamped = record task {
      started_at = some (or_else task.started_at now);
      updated_at = now;
      result_count = 0;
    } in
    if kept == 0
    then record stamped {
      status = MatchStatus.succeeded;
      stage = screening;
      completed_units = 1;
      total_units = 1;
      completed_at = some now;
    }
    else record stamped {
      status = MatchStatus.running;
      stage = pairwise;
      completed_units = 1;
      total_units = kept + 2;
      completed_at = none;
    }

unfoldable pub started : Clock → MatchTask → Result MatchTask
unfolding aware_now running_task
started clock task =
    if is_status_queued task.status
    then (do now ← aware_now clock; ok (running_task now task))
    else ok task

module _ (schema : ScreeningSchema) where
  screening_game_brief : Option Json → Result Json
  screening_game_brief none = err (input_error "locked_game_brief_invalid")
  screening_game_brief (some value) =
      if schema.is_game_brief value then ok value else err (input_error "locked_game_brief_invalid")

  screening_creator_brief : Option Json → Result Json
  screening_creator_brief none = err (input_error "locked_creator_brief_invalid")
  screening_creator_brief (some value) =
      if schema.is_creator_brief value
      then ok value
      else err (input_error "locked_creator_brief_invalid")

  locked_creators : List MatchScreeningRecord → Result (List (Uuid × Json))
  unfolding screening_creator_brief
  locked_creators [] = ok []
  locked_creators (row ∷ rest) =
      let later = locked_creators rest in
      do
        brief ← screening_creator_brief row.locked_creator_brief
        creators ← later
        ok ((row.creator_id, brief) ∷ creators)

  unfoldable pub load_locked_screening_input :
      Clock → MatchTables → Result (LockedScreeningInput × MatchTables)
  unfolding screening_game_brief locked_creators locked_screening_input started
  load_locked_screening_input clock t = do
    task ← require t.task (input_error "match_task_not_found")
    raise_if (is_status_failed task.status || is_status_superseded task.status)
        (input_error "match_task_not_screenable")
    if not (is_stage_screening task.stage) || is_status_succeeded task.status
        then (do
          game_brief ← screening_game_brief task.locked_game_brief
          locked ← locked_screening_input game_brief [] (some (selected_ids t.screening))
          ok (locked, t))
        else (do
          raise_if (not (is_status_queued task.status || is_status_running task.status))
              (input_error "match_task_not_screenable")
          raise_if (not (same_set (candidate_ids t.candidates) (screening_ids t.screening)))
              (input_error "match_candidate_snapshot_invalid")
          creators ← locked_creators t.screening
          running ← started clock task
          game_brief ← screening_game_brief running.locked_game_brief
          locked ← locked_screening_input game_brief creators none
          ok (locked, record t { task = some running }))

  -- One screening record, under the decisions by Creator.
  unfoldable pub decide : List ScreeningSelection → MatchScreeningRecord → MatchScreeningRecord
  decide selections row =
      elim (find (λ (s : ScreeningSelection). s.creator_id == row.creator_id) selections) [
        | none ↦ row
        | some s ↦ record row {
          selected = true;
          screening_reason = some (schema.reason_json s.screening_reason s.evidence);
        }
      ]

  -- The rows after the decision. Pairwise records are made only after it, so the deletion of
  -- candidate inputs cascades to none.
  unfoldable pub decided_tables :
      Timestamp → List ScreeningSelection → MatchTask → MatchTables → MatchTables
  unfolding decide decided_task
  decided_tables now selections task t =
      let keep = selection_ids selections in
      record t {
        task = some (decided_task now (length keep) task);
        screening = map (decide selections) t.screening;
        candidates = filter (λ (r : MatchCandidateInput). member r.creator_id keep) t.candidates;
        campaigns =
            if is_empty keep then (if t.campaigns == 0 then 1 else t.campaigns) else t.campaigns;
      }

  unfoldable pub apply_screening_output :
      Clock → List ScreeningSelection → MatchTables → Result (List Uuid × MatchTables)
  unfolding decided_tables aware_now
  apply_screening_output clock selections t = do
    raise_if (ltb 30 (length selections)) (input_error "screening_output_invalid")
    raise_if (not (distinct (selection_ids selections))) (input_error "screening_output_invalid")
    task ← require t.task (input_error "match_task_not_found")
    if not (is_stage_screening task.stage) || is_status_succeeded task.status
        then ok (selected_ids t.screening, t)
        else (do
          raise_if (not (is_status_queued task.status || is_status_running task.status))
              (input_error "match_task_not_screenable")
          raise_if (not (subset (selection_ids selections) (screening_ids t.screening)))
              (input_error "screening_output_unknown_creator")
          raise_if (not (subset (selection_ids selections) (candidate_ids t.candidates)))
              (input_error "selected_candidate_snapshot_missing")
          now ← aware_now clock
          ok (
            filter (λ c. member c (selection_ids selections)) (screening_ids t.screening),
            decided_tables now selections task t,
          ))

  -- `ScreeningService._validate_for_task`; `none` is a provider value of another type.
  unfoldable pub validate_for_task :
      Option (List ScreeningSelection) → LockedScreeningInput → Result (List ScreeningSelection)
  validate_for_task raw locked = do
    selected ← require raw invalid_screening
    raise_if (ltb 30 (length selected)) invalid_screening
    raise_if (not (distinct (selection_ids selected))) invalid_screening
    raise_if
        (not (subset (selection_ids selected) (map (λ (c : Uuid × Json). c.0) locked.creators)))
        invalid_screening
    raise_if (not (schema.is_screening_output selected)) invalid_screening
    ok selected

  -- The second transaction of `ScreeningService.run`.
  decide_loaded :
      (LockedScreeningInput → Result (Option (List ScreeningSelection)))
      → Clock
      → LockedScreeningInput
      → MatchTables
      → Result (List Uuid × MatchTables)
  unfolding apply_screening_output validate_for_task
  decide_loaded answer clock locked t = elim locked.applied_creator_ids [
    | some ids ↦ ok (ids, t)
    | none ↦ if is_empty locked.creators then apply_screening_output clock [] t else (do
      raw ← answer locked
      selections ← validate_for_task raw locked
      apply_screening_output clock selections t)
  ]

  -- `ScreeningService.run`, where no other worker changes the rows during the provider's call.
  -- What the first transaction wrote stays when the provider or the second one fails.
  unfoldable pub run :
      (LockedScreeningInput → Result (Option (List ScreeningSelection)))
      → Clock
      → Clock
      → MatchTables
      → Result (List Uuid) × MatchTables
  unfolding load_locked_screening_input decide_loaded
  run answer at_load at_apply t = elim (load_locked_screening_input at_load t) [
    | err e ↦ (err e, t)
    | ok (locked, loaded) ↦ settle loaded (decide_loaded answer at_apply locked loaded)
  ]
