-- ===== src/Jobs/Transitions/Steps.antt =====
-- What a transition may do to a Job (backend/app/analysis/service.py and
-- backend/app/workers/analysis_tasks.py).
use find_me_gamer.Prelude.{ℕ, ◌≤◌, ◌≡◌, refl, Bool, true, false, not, arith}
use find_me_gamer.Result.{
  Result, ◌>>=◌, Ensures, returned, Ensures-raise_if, Ensures-require, Ensures-bind, Ensures-if,
  Ensures-result,
}
use find_me_gamer.Match.Model.{Timestamp, Clock}
use find_me_gamer.Jobs.Model.{
  TargetType, JobStatus, AnalysisJob, is_job_queued, is_job_running, is_job_succeeded, is_active,
}
use find_me_gamer.Jobs.Contract.{valid_analysis_job_state, valid_unfailed}
use find_me_gamer.Jobs.Transitions.{
  require_valid, require_result, started, start_queued, start, stage_order, advanced, advance,
}

abbrev pub is_valid : AnalysisJob → Bool
is_valid = valid_analysis_job_state

-- The order in which a Job's status changes.
abbrev pub status_order : JobStatus → ℕ
status_order JobStatus.queued = 0
status_order JobStatus.running = 1
status_order JobStatus.succeeded = 2
status_order JobStatus.failed = 2

-- The Job keeps its identity, has a valid state, goes on in status, stage and units, and is as it was
-- if it had ended.
pub record Follows (old new : AnalysisJob) : Type 0 where
  pub same_id : new.id ≡ old.id
  pub same_target_id : new.canonical_target_id ≡ old.canonical_target_id
  pub valid : valid_analysis_job_state new ≡ true
  pub status_kept : status_order old.status ≤ status_order new.status
  pub stage_kept : stage_order old.stage ≤ stage_order new.stage
  pub units_kept : old.completed_units ≤ new.completed_units
  pub final : is_active old.status ≡ false → new ≡ old

pub Follows-refl : (job : AnalysisJob) → valid_analysis_job_state job ≡ true → Follows job job
Follows-refl job valid = record {
  same_id = refl;
  same_target_id = refl;
  valid = valid;
  status_kept = omega arith;
  stage_kept = omega arith;
  units_kept = omega arith;
  final = λ ended. refl;
}

started-Follows :
    (now : Timestamp) (job : AnalysisJob)
    → is_job_queued job.status ≡ true
    → valid_analysis_job_state job ≡ true
    → valid_analysis_job_state (started now job) ≡ true
    → Follows job (started now job)
unfolding started valid_analysis_job_state valid_unfailed
started-Follows now job queued valid next_valid = record {
  same_id = refl;
  same_target_id = refl;
  valid = next_valid;
  status_kept = ground arith;
  stage_kept = ground arith;
  units_kept = ground arith;
  final = λ ended. absurd (ground arith);
}

-- A walk through a transition that asks for a valid state.
pub Ensures-require_valid {ℓ κ} :
    {A : Type ℓ} {P : A → Type κ} (job : AnalysisJob) (f : Unit {0} → Result A)
    → (valid_analysis_job_state job ≡ true → Ensures P (f tt))
    → Ensures P (require_valid job >>= f)
unfolding require_valid
Ensures-require_valid job f h =
    Ensures-raise_if (not (valid_analysis_job_state job)) _ f (λ passes. h (ground arith))

pub Ensures-require_result {ℓ κ} :
    {A : Type ℓ} {P : A → Type κ} (has_profile : AnalysisJob → Bool) (job : AnalysisJob)
    (f : Unit {0} → Result A)
    → Ensures P (f tt)
    → Ensures P (require_result has_profile job >>= f)
unfolding require_result
Ensures-require_result has_profile job f h = Ensures-raise_if _ _ f (λ passes. h)

pub start_queued-Follows :
    (clock : Clock) (job : AnalysisJob)
    → valid_analysis_job_state job ≡ true
    → Ensures
        (λ next. valid_analysis_job_state next ≡ true → Follows job next)
        (start_queued clock job)
unfolding start_queued
start_queued-Follows clock job valid =
    Ensures-if (is_job_queued job.status) _ _
      (λ queued.
        Ensures-require clock _ _ (λ now is_now. returned (started-Follows now job queued valid)))
      (λ running. returned (λ v. Follows-refl job valid))

pub start-Follows :
    (kind : TargetType) (has_profile : AnalysisJob → Bool) (clock : Clock) (job : AnalysisJob)
    → valid_analysis_job_state job ≡ true
    → Ensures (λ out. Follows job out.1) (start kind has_profile clock job)
unfolding start
start-Follows kind has_profile clock job valid = Ensures-raise_if _ _ _ (λ right_kind.
    Ensures-if (is_job_succeeded job.status) _ _
      (λ done. Ensures-require_result has_profile job _ (
        Ensures-require_valid job _ (λ v.
          Ensures-require job.profile_id _ _
            (λ profile_id is_id. returned (Follows-refl job valid)))))
      (λ undone. Ensures-raise_if _ _ _ (λ active. Ensures-require_valid job _ (λ v.
        Ensures-bind _ _ (λ next is_next. Ensures-require_valid next _ (λ next_valid.
          returned (Ensures-result (start_queued-Follows clock job valid) is_next next_valid)))))))

advanced-Follows :
    (completed_units : ℕ) (job : AnalysisJob)
    → is_job_running job.status ≡ true
    → valid_analysis_job_state job ≡ true
    → valid_analysis_job_state (advanced completed_units job) ≡ true
    → Follows job (advanced completed_units job)
unfolding advanced valid_analysis_job_state valid_unfailed
advanced-Follows completed_units job running valid next_valid = record {
  same_id = refl;
  same_target_id = refl;
  valid = next_valid;
  status_kept = omega arith;
  stage_kept = ground arith;
  units_kept = ground arith;
  final = λ ended. absurd (ground arith);
}

pub advance-Follows :
    (kind : TargetType) (has_profile : AnalysisJob → Bool) (completed_units : ℕ) (job : AnalysisJob)
    → valid_analysis_job_state job ≡ true
    → Ensures (Follows job) (advance kind has_profile completed_units job)
unfolding advance
advance-Follows kind has_profile completed_units job valid = Ensures-raise_if _ _ _ (λ boundary.
    Ensures-raise_if _ _ _ (λ right_kind.
      Ensures-if (is_job_succeeded job.status) _ _
        (λ done.
          Ensures-require_result has_profile job _
            (Ensures-require_valid job _ (λ v. returned (Follows-refl job valid))))
        (λ undone. Ensures-raise_if (not (is_job_running job.status)) _ _ (λ running.
          Ensures-require_valid (advanced completed_units job) _ (λ next_valid.
            returned (advanced-Follows completed_units job (ground arith) valid next_valid))))))
