-- ===== src/Jobs/Transitions.antt =====
-- The transitions of one Analysis Job: `GameAnalysisService` and `CreatorAnalysisService` of
-- backend/app/analysis/service.py, and `_claim` and `_write_terminal_failure` of
-- backend/app/workers/analysis_tasks.py.
--
-- The two services differ in the target type, in the longest interval and in the codes of two failures.
-- Whether the profile that a succeeded Job names is there under the Job's identity is an argument.
pub mod Finalize
pub mod End
pub mod Steps
pub mod Ends
pub mod Progress
pub mod Completion
use find_me_gamer.Prelude.{
  ℕ, ◌+◌, ◌-◌, ◌*◌, Bool, true, false, not, ◌&&◌, ◌||◌, Option, none, some, List, [], ◌∷◌, ◌++◌,
  String, ◌==◌, leb, ltb, min, max, find, update, is_some, is_none, str_eq, if◌then◌else◌,
}
use find_me_gamer.Result.{permanent, value_error, Result, ok, err, ◌>>=◌, ◌>>◌, raise_if, require}
use find_me_gamer.Match.Model.{Uuid, Timestamp, Clock}
use find_me_gamer.Jobs.Model.{
  TargetType, game, creator, JobStatus, AnalysisStage, fetching_data, analyzing, finalizing,
  ResultPayload, of_profile, AnalysisJob, is_job_queued, is_job_running, is_job_succeeded,
  is_job_failed, is_active, is_finalizing, same_target, has_job_id,
}
use find_me_gamer.Jobs.Contract.{
  valid_analysis_job_state, is_profile_payload, public_job_failure, is_failure,
}

abbrev pub units : ℕ
units = 5

abbrev pub state_invalid : String
state_invalid = "analysis_job_state_invalid"

unfoldable pub require_valid : AnalysisJob → Result (Unit {0})
unfolding valid_analysis_job_state
require_valid job = raise_if (not (valid_analysis_job_state job)) (permanent state_invalid)

-- `require_valid_succeeded_job_result` of a succeeded Job
unfoldable pub require_result : (AnalysisJob → Bool) → AnalysisJob → Result (Unit {0})
require_result has_profile job =
    raise_if (not (is_profile_payload job.profile_id job.result_payload && has_profile job))
      (permanent "analysis_job_result_invalid")

abbrev pub aware_now : Clock → Result Timestamp
aware_now clock = require clock (permanent "analysis_clock_invalid")

pub record JobLease : Type 0 where
  pub job_id : Uuid
  pub target_id : String
  pub canonical_url : String
  pub completed_profile_id : Option Uuid

unfoldable pub lease_of : AnalysisJob → Option Uuid → JobLease
lease_of job profile_id = record {
  job_id = job.id;
  target_id = job.canonical_target_id;
  canonical_url = job.canonical_url;
  completed_profile_id = profile_id;
}

unfoldable pub started : Timestamp → AnalysisJob → AnalysisJob
started now job = record job {
  status = JobStatus.running;
  stage = some fetching_data;
  completed_units = 0;
  total_units = units;
  started_at = some now;
}

-- `if job.status is JobStatus.QUEUED: ...`
unfoldable pub start_queued : Clock → AnalysisJob → Result AnalysisJob
unfolding started
start_queued clock job =
    if is_job_queued job.status then (do now ← aware_now clock; ok (started now job)) else ok job

-- `start` of either service
unfoldable pub start :
    TargetType → (AnalysisJob → Bool) → Clock → AnalysisJob → Result (JobLease × AnalysisJob)
unfolding require_valid require_result lease_of start_queued
start kind has_profile clock job = do
  raise_if (not (same_target job.target_type kind)) (permanent "analysis_job_target_invalid")
  if is_job_succeeded job.status
      then (do
        require_result has_profile job
        require_valid job
        profile_id ← require job.profile_id (permanent "analysis_job_result_invalid")
        ok (lease_of job (some profile_id), job))
      else (do
        raise_if (not (is_active job.status)) (permanent state_invalid)
        require_valid job
        next ← start_queued clock job
        require_valid next
        ok (lease_of next none, next))

-- `stage_order`
abbrev pub stage_order : Option AnalysisStage → ℕ
stage_order none = 0
stage_order (some fetching_data) = 1
stage_order (some analyzing) = 2
stage_order (some finalizing) = 3

abbrev pub requested_stage : ℕ → AnalysisStage
requested_stage completed_units = if completed_units == 4 then finalizing else analyzing

unfoldable pub advanced : ℕ → AnalysisJob → AnalysisJob
advanced completed_units job = record job {
  completed_units = min (max job.completed_units completed_units) (job.total_units - 1);
  stage =
      if ltb (stage_order job.stage) (stage_order (some (requested_stage completed_units)))
      then some (requested_stage completed_units)
      else job.stage;
}

-- `advance` of either service
unfoldable pub advance : TargetType → (AnalysisJob → Bool) → ℕ → AnalysisJob → Result AnalysisJob
unfolding require_valid require_result advanced
advance kind has_profile completed_units job = do
  raise_if (not (completed_units == 2 || completed_units == 4)) value_error
  raise_if (not (same_target job.target_type kind)) (permanent "analysis_job_target_invalid")
  if is_job_succeeded job.status
      then (do require_result has_profile job; require_valid job; ok job)
      else (do
        raise_if (not (is_job_running job.status)) (permanent state_invalid)
        require_valid (advanced completed_units job)
        ok (advanced completed_units job))
