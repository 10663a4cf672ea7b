-- ===== src/Match/Pairwise/Claim.antt =====
-- `SQLPairwiseRepository.claim` of backend/app/matching/pairwise.py.
use find_me_gamer.Prelude.{
  ◌+◌, Bool, false, not, ◌&&◌, ◌||◌, Option, none, some, ◌==◌, or_else, if◌then◌else◌, find, update,
}
use find_me_gamer.Result.{checkpoint, Result, ok, err, ◌>>=◌, ◌>>◌, raise_if, require}
use find_me_gamer.Match.Model.{
  Uuid, Timestamp, Json, Clock, PairwiseState, MatchTask, MatchPairwiseRecord, MatchTables,
  PairwiseMatchBrief, BriefSchema, is_status_running, is_status_failed, is_stage_pairwise,
  is_pair_succeeded, is_pair_failed, is_pair_running, is_pair_queued,
}
use find_me_gamer.Match.Pairwise.Brief.{of_creator, require_uuid, aware_utc, validated_brief}

-- What the code asks of the locked inputs: validation by Pydantic, and the shape of JSON values.
pub record LockedInputSchema : Type 0 where
  pub is_game_brief : Json → Bool
  pub is_mapping : Json → Bool
  pub has_creator_id : Json → Uuid → Bool
  pub has_sections : Json → Bool
  pub builds_prompt : Json → Json → Bool

pub record LockedPairwiseInput : Type 0 where
  pub game_brief : Option Json
  pub creator_profile : Option Json
  pub completed_brief : Option PairwiseMatchBrief

-- The row after a claim.
unfoldable pub start_pair : Timestamp → MatchPairwiseRecord → MatchPairwiseRecord
start_pair now r = record r {
  state = PairwiseState.running;
  attempt_count = r.attempt_count + 1;
  started_at = some (or_else r.started_at now);
  completed_at = none;
  match_brief = none;
  error_code = none;
  error_message = none;
  retryable = false;
  updated_at = now;
}

module _ (schema : BriefSchema) where
  module _ (locked : LockedInputSchema) where
    validated_game_brief : Option Json → Result Json
    validated_game_brief none = err (checkpoint "locked_game_brief_invalid")
    validated_game_brief (some value) =
        if locked.is_game_brief value
        then ok value
        else err (checkpoint "locked_game_brief_invalid")

    validated_creator_profile : Option Json → Uuid → Result Json
    validated_creator_profile none expected = err (checkpoint "locked_creator_profile_invalid")
    validated_creator_profile (some value) expected = do
      raise_if (not (locked.is_mapping value)) (checkpoint "locked_creator_profile_invalid")
      raise_if (not (locked.has_creator_id value expected))
          (checkpoint "locked_creator_identity_invalid")
      raise_if (not (locked.has_sections value)) (checkpoint "locked_creator_profile_invalid")
      ok value

    -- `claim` where the pair has not succeeded.
    claim_unfinished :
        Clock
        → Uuid
        → MatchTask
        → MatchPairwiseRecord
        → MatchTables
        → Result (LockedPairwiseInput × MatchTables)
    unfolding start_pair aware_utc validated_game_brief validated_creator_profile
    claim_unfinished clock creator_id task row t = do
      raise_if (is_status_failed task.status && is_pair_failed row.state)
          (checkpoint "match_pair_terminal")
      raise_if
          (not (is_status_running task.status)
            || not (is_stage_pairwise task.stage)
            || not
                (is_pair_queued row.state || is_pair_running row.state || is_pair_failed row.state)
            || (is_pair_failed row.state && not row.retryable))
          (checkpoint "match_pair_not_runnable")
      screening ←
          require (find (λ r. r.creator_id == creator_id) t.screening)
            (checkpoint "match_candidate_not_selected")
      raise_if (not screening.selected) (checkpoint "match_candidate_not_selected")
      candidate ←
          require (find (λ r. r.creator_id == creator_id) t.candidates)
            (checkpoint "match_candidate_not_selected")
      game_brief ← validated_game_brief task.locked_game_brief
      creator_profile ← validated_creator_profile candidate.locked_creator_profile creator_id
      raise_if (not (locked.builds_prompt game_brief creator_profile))
          (checkpoint "locked_creator_profile_invalid")
      now ← aware_utc clock
      ok (
        record {
          game_brief = some game_brief;
          creator_profile = some creator_profile;
          completed_brief = none;
        },
        record t { pairs = update (of_creator creator_id) (start_pair now) t.pairs },
      )

    unfoldable pub claim :
        Clock → Uuid → Uuid → MatchTables → Result (LockedPairwiseInput × MatchTables)
    unfolding claim_unfinished require_uuid validated_brief
    claim clock match_task_id creator_id t = do
      require_uuid match_task_id
      require_uuid creator_id
      task ← require t.task (checkpoint "match_pair_not_found")
      row ← require (find (of_creator creator_id) t.pairs) (checkpoint "match_pair_not_found")
      if is_pair_succeeded row.state
          then (do
            completed ← validated_brief schema row.match_brief creator_id
            ok (
              record {
                game_brief = none;
                creator_profile = none;
                completed_brief = some completed;
              },
              t,
            ))
          else claim_unfinished clock creator_id task row t
