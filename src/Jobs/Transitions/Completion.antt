-- ===== src/Jobs/Transitions/Completion.antt =====
-- The successful life of an Analysis Job: what `GamePipeline.run` and `CreatorPipeline.run` call of the
-- services (backend/app/analysis/service.py).
use find_me_gamer.Prelude.{
  ℕ, ◌≤◌, ◌≡◌, refl, Bool, true, false, not, ◌&&◌, ◌||◌, none, some, List, ◌==◌, leb, find, arith,
  str_eq, str_eq_refl,
}
use find_me_gamer.Result.{Result, ok, ◌>>=◌, raise_if, require, raise_if-passes}
use find_me_gamer.Match.Model.{Uuid, Timestamp}
use find_me_gamer.Jobs.Model.{
  TargetType, game, creator, AnalysisJob, is_job_queued, is_job_running, is_job_succeeded,
  is_active, is_finalizing, same_target,
}
use find_me_gamer.Jobs.Contract.{valid_analysis_job_state, valid_units_and_times, valid_unfailed}
use find_me_gamer.Jobs.Transitions.{
  require_valid, lease_of, started, start_queued, start, advanced, advance,
}
use find_me_gamer.Jobs.Transitions.Finalize.{
  Publication, Profile, succeeded, upsert, finalize_running, finalize, max_interval, same_url,
  of_target,
}

require_valid-passes {ℓ} :
    {A : Type ℓ} (job : AnalysisJob) (rest : Unit {0} → Result A)
    → valid_analysis_job_state job ≡ true
    → (require_valid job >>= rest) ≡ rest tt
unfolding require_valid
require_valid-passes job rest valid =
    raise_if-passes (not (valid_analysis_job_state job)) _ rest (ground arith)

same_target_refl : (a : TargetType) → same_target a a ≡ true
same_target_refl game = refl
same_target_refl creator = refl

started-valid :
    (now : Timestamp) (job : AnalysisJob)
    → valid_analysis_job_state job ≡ true
    → is_job_queued job.status ≡ true
    → job.created_at ≤ now
    → valid_analysis_job_state (started now job) ≡ true
unfolding started valid_analysis_job_state valid_units_and_times valid_unfailed
started-valid now job valid queued later = ground arith

-- A queued Job is started.
start-queued :
    (has_profile : AnalysisJob → Bool) (now : Timestamp) (job : AnalysisJob)
    → valid_analysis_job_state job ≡ true
    → is_job_queued job.status ≡ true
    → job.created_at ≤ now
    → start job.target_type has_profile (some now) job
      ≡ ok (lease_of (started now job) none, started now job)
unfolding start start_queued require_valid raise_if ◌>>=◌ require
start-queued has_profile now job valid queued later =
    let unsucceeded : is_job_succeeded job.status ≡ false = ground arith in
    let active : is_active job.status ≡ true = ground arith in
    let kind = same_target_refl job.target_type in
    let next_valid = started-valid now job valid queued later in
    simp (kind, unsucceeded, active, valid, queued, next_valid) refl

-- A running Job is advanced to one of the two boundaries.
advanced-valid :
    (n : ℕ) (job : AnalysisJob)
    → valid_analysis_job_state job ≡ true
    → is_job_running job.status ≡ true
    → valid_analysis_job_state (advanced n job) ≡ true
unfolding advanced valid_analysis_job_state valid_units_and_times valid_unfailed
advanced-valid n job valid running = ground arith

advance-running :
    (has_profile : AnalysisJob → Bool) (n : ℕ) (job : AnalysisJob)
    → (n == 2 || n == 4) ≡ true
    → valid_analysis_job_state job ≡ true
    → is_job_running job.status ≡ true
    → advance job.target_type has_profile n job ≡ ok (advanced n job)
unfolding advance require_valid raise_if ◌>>=◌
advance-running has_profile n job boundary valid running =
    let unsucceeded : is_job_succeeded job.status ≡ false = ground arith in
    let kind = same_target_refl job.target_type in
    let next_valid = advanced-valid n job valid running in
    simp (boundary, kind, unsucceeded, running, next_valid) refl

-- A running Job in its last stage is finalized.
succeeded-valid :
    (now before : Timestamp) (profile_id : Uuid) (job : AnalysisJob)
    → valid_analysis_job_state job ≡ true
    → is_job_running job.status ≡ true
    → job.started_at ≡ some before
    → before ≤ now
    → valid_analysis_job_state (succeeded now profile_id job) ≡ true
unfolding succeeded valid_analysis_job_state valid_units_and_times valid_unfailed
succeeded-valid now before profile_id job valid running at later = ground arith

-- The publication is of the Job's target, and the settings hold an allowed interval.
pub record IsPublicationOf (p : Publication) (job : AnalysisJob) (interval : ℕ) : Type 0 where
  pub same_id : str_eq p.source_id job.canonical_target_id ≡ true
  pub same_source_url : same_url p p.source_url job.canonical_url ≡ true
  pub interval_is : p.interval_days ≡ some interval
  pub allowed : leb 1 interval && leb interval (max_interval job.target_type) ≡ true

abbrev pub finalized :
    Publication → ℕ → Timestamp → AnalysisJob → List Profile → Uuid × AnalysisJob × List Profile
finalized p interval now job profiles =
    let (profile_id, rows) =
      upsert p job.canonical_target_id interval now
        (find (of_target job.canonical_target_id) profiles) profiles in
    (profile_id, succeeded now profile_id job, rows)

finalize-running :
    (has_profile : AnalysisJob → Bool) (now before : Timestamp) (p : Publication) (interval : ℕ)
    (job : AnalysisJob) (profiles : List Profile)
    → valid_analysis_job_state job ≡ true
    → is_job_running job.status ≡ true
    → is_finalizing job.stage ≡ true
    → job.started_at ≡ some before
    → before ≤ now
    → IsPublicationOf p job interval
    → finalize job.target_type has_profile (some now) (lease_of job none) p job profiles
      ≡ ok (finalized p interval now job profiles)
unfolding finalize finalize_running lease_of require_valid raise_if ◌>>=◌ require
finalize-running has_profile now before p interval job profiles valid running staged at later
      pub_is =
    let unsucceeded : is_job_succeeded job.status ≡ false = ground arith in
    let kind = same_target_refl job.target_type in
    let same = str_eq_refl job.canonical_target_id in
    let same_job_url = str_eq_refl (p.rstrip job.canonical_url) in
    let same_id = pub_is.same_id in
    let same_source_url = pub_is.same_source_url in
    let interval_is = pub_is.interval_is in
    let allowed = pub_is.allowed in
    let next_valid =
      succeeded-valid now before
        (upsert p job.canonical_target_id interval now
          (find (of_target job.canonical_target_id) profiles) profiles).0
        job valid running at later in
    simp
      (
        kind, same, same_job_url, unsucceeded, running, staged, same_id, same_source_url,
        interval_is, allowed, next_valid,
      )
      refl

-- The calls of a pipeline on its Job, one after the other, and what they leave.
pub record Completes (has_profile : AnalysisJob → Bool) (job : AnalysisJob) (begin end : Timestamp)
    (p : Publication) (interval : ℕ) (profiles : List Profile) : Type 0 where
  running : AnalysisJob
  analyzed : AnalysisJob
  last : AnalysisJob
  started_is : start job.target_type has_profile (some begin) job ≡ ok (lease_of job none, running)
  analyzed_is : advance job.target_type has_profile 2 running ≡ ok analyzed
  last_is : advance job.target_type has_profile 4 analyzed ≡ ok last
  finalized_is :
      finalize job.target_type has_profile (some end) (lease_of job none) p last profiles
      ≡ ok (finalized p interval end last profiles)
  valid : (profile_id : Uuid) → valid_analysis_job_state (succeeded end profile_id last) ≡ true

-- A Job that is queued can always be brought to success. Where its state is valid, the clock is not
-- before its creation and does not go back, and the publication is of the Job's target and the interval
-- of the settings is allowed, `start`, `advance` to 2, `advance` to 4 and `finalize` all return, with a
-- succeeded Job whose state is valid.
pub queued-Completes :
    (has_profile : AnalysisJob → Bool) (job : AnalysisJob) (begin end : Timestamp) (p : Publication)
    (interval : ℕ) (profiles : List Profile)
    → valid_analysis_job_state job ≡ true
    → is_job_queued job.status ≡ true
    → job.created_at ≤ begin
    → begin ≤ end
    → IsPublicationOf p job interval
    → Completes has_profile job begin end p interval profiles
unfolding started advanced lease_of
queued-Completes has_profile job begin end p interval profiles valid queued later later_still
      pub_is =
    let j1 : AnalysisJob = started begin job in
    let j2 : AnalysisJob = advanced 2 j1 in
    let j3 : AnalysisJob = advanced 4 j2 in
    let v1 : valid_analysis_job_state j1 ≡ true = started-valid begin job valid queued later in
    let v2 : valid_analysis_job_state j2 ≡ true = advanced-valid 2 j1 v1 refl in
    let v3 : valid_analysis_job_state j3 ≡ true = advanced-valid 4 j2 v2 refl in
    record {
      running = j1;
      analyzed = j2;
      last = j3;
      started_is = start-queued has_profile begin job valid queued later;
      analyzed_is = advance-running has_profile 2 j1 refl v1 refl;
      last_is = advance-running has_profile 4 j2 refl v2 refl;
      finalized_is =
          finalize-running has_profile end begin p interval j3 profiles v3 refl refl refl
            later_still
            (record {
              same_id = pub_is.same_id;
              same_source_url = pub_is.same_source_url;
              interval_is = pub_is.interval_is;
              allowed = pub_is.allowed;
            });
      valid = λ profile_id. succeeded-valid end begin profile_id j3 v3 refl refl later_still;
    }
