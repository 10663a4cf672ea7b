-- ===== src/Jobs/Transitions/End.antt =====
-- The claim of a Job by a task, and its terminal failure (`_claim` and `_write_terminal_failure` of
-- backend/app/workers/analysis_tasks.py).
use find_me_gamer.Prelude.{Bool, true, false, ◌&&◌, Option, none, some, String, if◌then◌else◌}
use find_me_gamer.Result.{Result, ok, ◌>>=◌, ◌>>◌}
use find_me_gamer.Match.Model.{Timestamp, Clock}
use find_me_gamer.Jobs.Model.{
  TargetType, JobStatus, AnalysisJob, is_job_running, is_job_succeeded, is_job_failed,
}
use find_me_gamer.Jobs.Contract.{public_job_failure, is_failure}
use find_me_gamer.Jobs.Transitions.{require_valid, require_result, aware_now, start_queued}

pub record TerminalFailure : Type 0 where
  pub code : String
  pub message : String
  pub retryable : Bool

-- `TerminalFailure.__post_init__`
unfoldable pub is_terminal_failure : TerminalFailure → Bool
is_terminal_failure f = is_failure (public_job_failure f.code) f.message f.retryable

unfoldable pub failed : TerminalFailure → Timestamp → AnalysisJob → AnalysisJob
failed failure now job = record job {
  error_code = some failure.code;
  error_message = some failure.message;
  retryable = failure.retryable;
  profile_id = none;
  result_payload = none;
  status = JobStatus.failed;
  completed_at = some now;
}

-- `_write_terminal_failure` of a Job that is there
unfoldable pub write_terminal_failure :
    (AnalysisJob → Bool)
    → Bool
    → Clock
    → TerminalFailure
    → AnalysisJob
    → Result (Bool × AnalysisJob)
unfolding require_valid require_result failed
write_terminal_failure has_profile preserve_running clock failure job =
    if is_job_failed job.status
    then (do require_valid job; ok (false, job))
    else if is_job_succeeded job.status
    then (do require_result has_profile job; require_valid job; ok (false, job))
    else if is_job_running job.status && preserve_running
    then (do require_valid job; ok (false, job))
    else (do
      require_valid job
      now ← aware_now clock
      require_valid (failed failure now job)
      ok (true, failed failure now job))

-- `_claim` of a Job that is there
unfoldable pub claim_job :
    (AnalysisJob → Bool) → Clock → AnalysisJob → Result (Option TargetType × AnalysisJob)
unfolding require_valid require_result start_queued
claim_job has_profile clock job =
    if is_job_failed job.status
    then (do require_valid job; ok (none, job))
    else if is_job_succeeded job.status
    then (do require_result has_profile job; require_valid job; ok (none, job))
    else (do
      require_valid job
      next ← start_queued clock job
      require_valid next
      ok (some next.target_type, next))
