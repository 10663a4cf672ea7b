-- ===== src/Jobs/Scenarios.antt =====
-- Concrete Jobs, at which the theorems on Analysis Jobs are applied.
use find_me_gamer.Prelude.{◌≤◌, ◌≡◌, ◌⊎◌, refl, Bool, true, false, ◌&&◌, none, some, [], arith}
use find_me_gamer.Result.{ok, ◌>>=◌, require, raise_if}
use find_me_gamer.Jobs.Model.{JobStatus, game, create, AnalysisJob, is_job_queued, is_job_succeeded}
use find_me_gamer.Jobs.Contract.{valid_analysis_job_state, valid_units_and_times, valid_unfailed}
use find_me_gamer.Jobs.Contract.Checks.{job_checks}
use find_me_gamer.Jobs.Contract.Agreement.{has_result, job_checks-agree}
use find_me_gamer.Jobs.Transitions.{start, start_queued, started, lease_of, require_valid}
use find_me_gamer.Jobs.Transitions.Finalize.{Publication}
use find_me_gamer.Jobs.Transitions.Steps.{Follows}
use find_me_gamer.Jobs.Transitions.Progress.{here, next, starts, Run-Follows}
use find_me_gamer.Jobs.Transitions.Completion.{IsPublicationOf, Completes, queued-Completes}
use find_me_gamer.Jobs.Creation.{CanonicalTarget, queued_job, Request, creation}
use find_me_gamer.Jobs.Retry.{RetryPolicy, is_policy, delay, delay-bounded}

abbrev target : CanonicalTarget
target = record {
  target_type = game;
  canonical_id = "440";
  canonical_url = "https://store.steampowered.com/app/440";
  requires_resolution = false;
}

abbrev new_job : AnalysisJob
unfolding queued_job
new_job = queued_job (record { id = 1; now = 100 }) target create none

new_job-valid : valid_analysis_job_state new_job ≡ true
unfolding valid_analysis_job_state valid_units_and_times valid_unfailed new_job
new_job-valid = refl

job_checks-agree_example :
    (valid_analysis_job_state new_job && has_result new_job ≡ true
      → job_checks false new_job ≡ true)
    × (job_checks false new_job ≡ true
        → (valid_analysis_job_state new_job && has_result new_job ≡ true)
          ⊎ ((is_job_succeeded new_job.status ≡ true)
              × ((new_job.stage ≡ none) ⊎ (new_job.result_payload ≡ none))))
job_checks-agree_example = job_checks-agree false new_job

-- A Job that has succeeded and lacks its stage and its payload: the table takes it where the payload is
-- the SQL NULL, and the code rejects it.
abbrev shapeless_job : AnalysisJob
unfolding queued_job
shapeless_job = record (queued_job (record { id = 1; now = 100 }) target create none) {
  status = JobStatus.succeeded;
  completed_units = 3;
  total_units = 3;
  profile_id = some 5;
  started_at = some 110;
  completed_at = some 120;
}

shapeless_accepted : job_checks false shapeless_job ≡ true
unfolding job_checks shapeless_job
shapeless_accepted = refl

shapeless_invalid : valid_analysis_job_state shapeless_job ≡ false
unfolding valid_analysis_job_state valid_units_and_times valid_unfailed shapeless_job
shapeless_invalid = refl

abbrev has_profile : AnalysisJob → Bool
has_profile job = true

abbrev running_job : AnalysisJob
unfolding started new_job
running_job = started 110 new_job

started_is : start game has_profile (some 110) new_job ≡ ok (lease_of new_job none, running_job)
unfolding start start_queued lease_of require_valid valid_analysis_job_state valid_units_and_times
    valid_unfailed ◌>>=◌ require raise_if new_job running_job
started_is = refl

Run-Follows_example : Follows new_job running_job
Run-Follows_example =
    Run-Follows has_profile (next here (starts game (some 110) (lease_of new_job none) started_is))
      new_job-valid

abbrev publication : Publication
publication = record {
  source_id = "440";
  source_url = "https://store.steampowered.com/app/440";
  interval_days = some 30;
  new_profile_id = 5;
  rstrip = λ url. url;
}

new_job-published : IsPublicationOf publication new_job 30
unfolding new_job
new_job-published = record {
  same_id = refl;
  same_source_url = refl;
  interval_is = refl;
  allowed = refl;
}

new_job-queued : is_job_queued new_job.status ≡ true
unfolding new_job
new_job-queued = refl

new_job-early : new_job.created_at ≤ 110
unfolding new_job
new_job-early = omega arith

queued-Completes_example : Completes has_profile new_job 110 120 publication 30 []
queued-Completes_example =
    queued-Completes has_profile new_job 110 120 publication 30 [] new_job-valid new_job-queued
      new_job-early (omega arith) new_job-published

-- Two requests for one target: the second saw no Job, and meets that of the first.
abbrev late_request : Request
late_request = creation (record { id = 2; now = 105 }) none target create none

abbrev policy : RetryPolicy
policy = record { max_retries = 3; base_delay_seconds = 2; max_delay_seconds = 60 }

policy-valid : is_policy policy ≡ true
unfolding is_policy
policy-valid = refl

delay-bounded_example : (2 ≤ delay policy 5 1) × (delay policy 5 1 ≤ 60)
delay-bounded_example = delay-bounded policy 5 1 policy-valid
