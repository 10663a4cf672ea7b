-- ===== src/Match/Retention.antt =====
-- The purge of the inputs of expired tasks (backend/app/matching/retention.py).
--
-- The rows of every task are those of one `MatchTables`.
pub mod Purged
use find_me_gamer.Prelude.{
  ℕ, ◌+◌, Bool, true, false, not, ◌&&◌, ◌||◌, Option, none, some, List, [], ◌∷◌, map, any, leb,
  is_some, if◌then◌else◌,
}
use find_me_gamer.Result.{value_error, Result, ok, ◌>>=◌, require}
use find_me_gamer.Match.Model.{
  Timestamp, Clock, MatchTask, MatchScreeningRecord, MatchCandidateInput, MatchTables,
  is_status_succeeded, is_status_failed, is_status_superseded,
}

-- The `where` clause.
unfoldable pub is_expired : Timestamp → MatchTask → Bool
is_expired now task =
    (is_status_succeeded task.status
      || is_status_failed task.status
      || is_status_superseded task.status)
    && leb task.input_expires_at now

unfoldable pub cleared_task : MatchTask → MatchTask
cleared_task task = record task { locked_game_brief = none }

unfoldable pub cleared_screening : MatchScreeningRecord → MatchScreeningRecord
cleared_screening row = record row { locked_creator_brief = none }

unfoldable pub cleared_candidate : MatchCandidateInput → MatchCandidateInput
cleared_candidate row = record row {
  locked_creator_profile = none;
  input_model_metadata = none;
  input_prompt_metadata = none;
}

abbrev pub has_brief : MatchScreeningRecord → Bool
has_brief row = is_some row.locked_creator_brief

abbrev pub has_input : MatchCandidateInput → Bool
has_input row =
    is_some row.locked_creator_profile
    || is_some row.input_model_metadata
    || is_some row.input_prompt_metadata

-- `task_changed`
unfoldable pub holds_inputs : MatchTask → MatchTables → Bool
holds_inputs task t =
    is_some task.locked_game_brief || any has_brief t.screening || any has_input t.candidates

unfoldable pub cleared : MatchTask → MatchTables → MatchTables
unfolding cleared_task cleared_screening cleared_candidate
cleared task t = record t {
  task = some (cleared_task task);
  screening = map cleared_screening t.screening;
  candidates = map cleared_candidate t.candidates;
}

unfoldable pub purge_task : Timestamp → Option MatchTask → MatchTables → ℕ × MatchTables
unfolding is_expired holds_inputs cleared
purge_task now none t = (0, t)
purge_task now (some task) t =
    if is_expired now task then ((if holds_inputs task t then 1 else 0), cleared task t) else (0, t)

-- `_purge`
unfoldable pub purge : Timestamp → List MatchTables → ℕ × List MatchTables
unfolding purge_task
purge now [] = (0, [])
purge now (t ∷ ts) =
    let (changed, u) = purge_task now t.task t in
    let (others, us) = purge now ts in (changed + others, u ∷ us)

unfoldable pub purge_expired_match_inputs : Clock → List MatchTables → Result (ℕ × List MatchTables)
unfolding purge
purge_expired_match_inputs clock ts = do now ← require clock value_error; ok (purge now ts)
