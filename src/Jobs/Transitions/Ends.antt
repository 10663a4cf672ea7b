-- ===== src/Jobs/Transitions/Ends.antt =====
-- The finalization, the claim and the failure of a Job against what a transition may do to it
-- (backend/app/analysis/service.py and backend/app/workers/analysis_tasks.py).
use find_me_gamer.Prelude.{◌≡◌, refl, Bool, true, false, not, ◌&&◌, List, find, arith}
use find_me_gamer.Result.{
  Ensures, returned, Ensures-raise_if, Ensures-require, Ensures-bind, Ensures-if, Ensures-result,
}
use find_me_gamer.Match.Model.{Uuid, Timestamp, Clock}
use find_me_gamer.Jobs.Model.{
  TargetType, AnalysisJob, is_job_running, is_job_succeeded, is_job_failed,
}
use find_me_gamer.Jobs.Contract.{valid_analysis_job_state, valid_units_and_times, valid_unfailed}
use find_me_gamer.Jobs.Transitions.{JobLease}
use find_me_gamer.Jobs.Transitions.Finalize.{
  Publication, Profile, succeeded, upsert, finalize_running, finalize, of_target,
}
use find_me_gamer.Jobs.Transitions.End.{TerminalFailure, failed, write_terminal_failure, claim_job}
use find_me_gamer.Jobs.Transitions.Steps.{
  Follows, Follows-refl, start_queued-Follows, Ensures-require_valid, Ensures-require_result,
}

pub claim_job-Follows :
    (has_profile : AnalysisJob → Bool) (clock : Clock) (job : AnalysisJob)
    → valid_analysis_job_state job ≡ true
    → Ensures (λ out. Follows job out.1) (claim_job has_profile clock job)
unfolding claim_job
claim_job-Follows has_profile clock job valid =
    Ensures-if (is_job_failed job.status) _ _
      (λ ended. Ensures-require_valid job _ (λ v. returned (Follows-refl job valid)))
      (λ live.
        Ensures-if (is_job_succeeded job.status) _ _
          (λ done.
            Ensures-require_result has_profile job _
              (Ensures-require_valid job _ (λ v. returned (Follows-refl job valid))))
          (λ undone. Ensures-require_valid job _ (λ v. Ensures-bind _ _ (λ next is_next.
            Ensures-require_valid next _ (λ next_valid.
              returned
                (Ensures-result (start_queued-Follows clock job valid) is_next next_valid))))))

succeeded-Follows :
    (now : Timestamp) (profile_id : Uuid) (job : AnalysisJob)
    → is_job_running job.status ≡ true
    → valid_analysis_job_state job ≡ true
    → valid_analysis_job_state (succeeded now profile_id job) ≡ true
    → Follows job (succeeded now profile_id job)
unfolding succeeded valid_analysis_job_state valid_unfailed valid_units_and_times
succeeded-Follows now profile_id job running valid next_valid = record {
  same_id = refl;
  same_target_id = refl;
  valid = next_valid;
  status_kept = ground arith;
  stage_kept = ground arith;
  units_kept = ground arith;
  final = λ ended. absurd (ground arith);
}

finalize_running-Follows :
    (kind : TargetType) (clock : Clock) (lease : JobLease) (p : Publication) (job : AnalysisJob)
    (profiles : List Profile)
    → valid_analysis_job_state job ≡ true
    → Ensures (λ out. Follows job out.1) (finalize_running kind clock lease p job profiles)
unfolding finalize_running
finalize_running-Follows kind clock lease p job profiles valid =
    Ensures-raise_if (not (is_job_running job.status)) _ _ (λ running.
      Ensures-raise_if _ _ _ (λ staged. Ensures-raise_if _ _ _ (λ same.
        Ensures-require p.interval_days _ _ (λ interval is_interval.
          Ensures-raise_if _ _ _ (λ bounded. Ensures-require clock _ _ (λ now is_now.
            let rows =
              upsert p lease.target_id interval now (find (of_target lease.target_id) profiles)
                profiles in
            Ensures-require_valid (succeeded now rows.0 job) _ (λ next_valid.
              returned (succeeded-Follows now rows.0 job (ground arith) valid next_valid))))))))

pub finalize-Follows :
    (kind : TargetType) (has_profile : AnalysisJob → Bool) (clock : Clock) (lease : JobLease)
    (p : Publication) (job : AnalysisJob) (profiles : List Profile)
    → valid_analysis_job_state job ≡ true
    → Ensures (λ out. Follows job out.1) (finalize kind has_profile clock lease p job profiles)
unfolding finalize
finalize-Follows kind has_profile clock lease p job profiles valid =
    Ensures-raise_if _ _ _ (λ right_kind. Ensures-raise_if _ _ _ (λ same.
      Ensures-if (is_job_succeeded job.status) _ _
        (λ done. Ensures-require_result has_profile job _ (
          Ensures-require_valid job _ (λ v.
            Ensures-require job.profile_id _ _
              (λ profile_id is_id. returned (Follows-refl job valid)))))
        (λ undone. finalize_running-Follows kind clock lease p job profiles valid)))

failed-Follows :
    (failure : TerminalFailure) (now : Timestamp) (job : AnalysisJob)
    → is_job_failed job.status ≡ false
    → is_job_succeeded job.status ≡ false
    → valid_analysis_job_state (failed failure now job) ≡ true
    → Follows job (failed failure now job)
unfolding failed
failed-Follows failure now job live undone next_valid = record {
  same_id = refl;
  same_target_id = refl;
  valid = next_valid;
  status_kept = ground arith;
  stage_kept = omega arith;
  units_kept = omega arith;
  final = λ ended. absurd (ground arith);
}

pub write_terminal_failure-Follows :
    (has_profile : AnalysisJob → Bool) (preserve_running : Bool) (clock : Clock)
    (failure : TerminalFailure) (job : AnalysisJob)
    → valid_analysis_job_state job ≡ true
    → Ensures
        (λ out. Follows job out.1)
        (write_terminal_failure has_profile preserve_running clock failure job)
unfolding write_terminal_failure
write_terminal_failure-Follows has_profile preserve_running clock failure job valid =
    Ensures-if (is_job_failed job.status) _ _
      (λ ended. Ensures-require_valid job _ (λ v. returned (Follows-refl job valid)))
      (λ live.
        Ensures-if (is_job_succeeded job.status) _ _
          (λ done.
            Ensures-require_result has_profile job _
              (Ensures-require_valid job _ (λ v. returned (Follows-refl job valid))))
          (λ undone.
            Ensures-if (is_job_running job.status && preserve_running) _ _
              (λ kept. Ensures-require_valid job _ (λ v. returned (Follows-refl job valid)))
              (λ fails. Ensures-require_valid job _ (λ v. Ensures-require clock _ _ (λ now is_now.
                Ensures-require_valid (failed failure now job) _ (λ next_valid.
                  returned (failed-Follows failure now job live undone next_valid)))))))
