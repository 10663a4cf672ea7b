-- ===== src/Jobs/Creation.antt =====
-- How Analysis Jobs are made (`create_or_reuse_job`, `create_creator_seed_job` and
-- `retry_or_reuse_job` of backend/app/repositories/jobs.py).
--
-- Arguments are the profile of the target, if the query finds one, the new Job's identity and the
-- database's time. The query for the active Job takes no lock: it sees the rows of one moment (`seen`),
-- and the insertion meets those of a later one (`jobs`), between which other transactions may stand.
pub mod Active
use find_me_gamer.Prelude.{
  ℕ, Bool, true, false, not, ◌&&◌, ◌||◌, Option, none, some, List, [], ◌∷◌, ◌++◌, String, find,
  is_some, str_eq, if◌then◌else◌,
}
use find_me_gamer.Result.{value_error, integrity_error, Result, ok, err, ◌>>=◌, ◌>>◌, raise_if}
use find_me_gamer.Match.Model.{Uuid, Timestamp}
use find_me_gamer.Jobs.Model.{
  TargetType, creator, JobMode, create, reanalyze, JobStatus, AnalysisJob, is_active, same_target,
}

pub record CanonicalTarget : Type 0 where
  pub target_type : TargetType
  pub canonical_id : String
  pub canonical_url : String
  pub requires_resolution : Bool

pub record JobCreationResult : Type 0 where
  pub job : Option AnalysisJob
  pub existing_profile_id : Option Uuid
  pub created : Bool

-- What the database generates.
pub record NewRow : Type 0 where
  pub id : Uuid
  pub now : Timestamp

abbrev pub is_create : JobMode → Bool
is_create create = true
is_create reanalyze = false

-- uq_analysis_jobs_active_target
abbrev pub active_of : TargetType → String → AnalysisJob → Bool
active_of target_type canonical_id job =
    same_target job.target_type target_type
    && str_eq job.canonical_target_id canonical_id
    && is_active job.status

unfoldable pub active_job : CanonicalTarget → List AnalysisJob → Option AnalysisJob
active_job target jobs = find (active_of target.target_type target.canonical_id) jobs

unfoldable pub queued_job : NewRow → CanonicalTarget → JobMode → Option String → AnalysisJob
queued_job row target mode correlation_id = record {
  id = row.id;
  target_type = target.target_type;
  canonical_target_id = target.canonical_id;
  canonical_url = target.canonical_url;
  mode = mode;
  status = JobStatus.queued;
  stage = none;
  completed_units = 0;
  total_units = 0;
  error_code = none;
  error_message = none;
  retryable = false;
  profile_id = none;
  result_payload = none;
  correlation_id = correlation_id;
  created_at = row.now;
  updated_at = row.now;
  started_at = none;
  completed_at = none;
}

abbrev pub answer : Option AnalysisJob → Option Uuid → Bool → JobCreationResult
answer job profile_id created = record {
  job = job;
  existing_profile_id = profile_id;
  created = created;
}

-- `session.add(job)` and `session.flush()` under that index, at the rows that are there then.
unfoldable pub insert_job : AnalysisJob → List AnalysisJob → Result (List AnalysisJob)
insert_job job jobs =
    if is_active job.status
      && is_some (find (active_of job.target_type job.canonical_target_id) jobs)
    then err integrity_error
    else ok (jobs ++ (job ∷ []))

-- The active Job that was read, or a new one.
unfoldable pub reuse_or_add :
    AnalysisJob
    → Option AnalysisJob
    → List AnalysisJob
    → Result (JobCreationResult × List AnalysisJob)
unfolding insert_job
reuse_or_add job (some active) jobs = ok (answer (some active) none false, jobs)
reuse_or_add job none jobs = do news ← insert_job job jobs; ok (answer (some job) none true, news)

abbrev pub existing : JobMode → Option Uuid → Option Uuid
existing create profile_id = profile_id
existing reanalyze profile_id = none

unfoldable pub create_unless :
    Option Uuid
    → AnalysisJob
    → CanonicalTarget
    → List AnalysisJob
    → List AnalysisJob
    → Result (JobCreationResult × List AnalysisJob)
unfolding reuse_or_add active_job
create_unless (some profile_id) job target seen jobs =
    ok (answer none (some profile_id) false, jobs)
create_unless none job target seen jobs = reuse_or_add job (active_job target seen) jobs

unfoldable pub create_or_reuse_job :
    NewRow
    → Option Uuid
    → CanonicalTarget
    → JobMode
    → Option String
    → List AnalysisJob
    → List AnalysisJob
    → Result (JobCreationResult × List AnalysisJob)
unfolding create_unless queued_job
create_or_reuse_job row profile_id target mode correlation_id seen jobs =
    create_unless (existing mode profile_id) (queued_job row target mode correlation_id) target seen
      jobs

abbrev pub seed_of : CanonicalTarget → CanonicalTarget
seed_of target = record target { target_type = creator }

unfoldable pub create_creator_seed_job :
    NewRow
    → CanonicalTarget
    → String
    → List AnalysisJob
    → List AnalysisJob
    → Result (JobCreationResult × List AnalysisJob)
unfolding reuse_or_add active_job queued_job
create_creator_seed_job row target correlation_id seen jobs = do
  raise_if (not (same_target target.target_type creator) || target.requires_resolution) value_error
  reuse_or_add (queued_job row (seed_of target) create (some correlation_id))
      (active_job target seen) jobs

abbrev pub target_of : AnalysisJob → CanonicalTarget
target_of source = record {
  target_type = source.target_type;
  canonical_id = source.canonical_target_id;
  canonical_url = source.canonical_url;
  requires_resolution = false;
}

unfoldable pub retry_or_reuse_job :
    NewRow
    → AnalysisJob
    → Option String
    → List AnalysisJob
    → List AnalysisJob
    → Result (JobCreationResult × List AnalysisJob)
unfolding reuse_or_add active_job queued_job
retry_or_reuse_job row source correlation_id seen jobs =
    reuse_or_add (queued_job row (target_of source) source.mode correlation_id)
      (active_job (target_of source) seen) jobs

-- A request for a Job.
pub data Request : Type 0 where
  creation : NewRow → Option Uuid → CanonicalTarget → JobMode → Option String → Request
  retry : NewRow → AnalysisJob → Option String → Request
  seeding : NewRow → CanonicalTarget → String → Request

unfoldable pub serve :
    Request → List AnalysisJob → List AnalysisJob → Result (JobCreationResult × List AnalysisJob)
unfolding create_or_reuse_job retry_or_reuse_job create_creator_seed_job
serve (creation row profile_id target mode correlation_id) seen jobs =
    create_or_reuse_job row profile_id target mode correlation_id seen jobs
serve (retry row source correlation_id) seen jobs =
    retry_or_reuse_job row source correlation_id seen jobs
serve (seeding row target correlation_id) seen jobs =
    create_creator_seed_job row target correlation_id seen jobs
