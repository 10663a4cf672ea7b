-- ===== src/Jobs/Transitions/Finalize.antt =====
-- `finalize` of the services of backend/app/analysis/service.py.
--
-- `str.rstrip("/")` is an argument. Of a profile the identity and the two times are modelled.
use find_me_gamer.Prelude.{
  ℕ, ◌+◌, ◌*◌, Bool, false, not, ◌&&◌, Option, none, some, List, [], ◌∷◌, ◌++◌, String, leb, find,
  update, str_eq, if◌then◌else◌,
}
use find_me_gamer.Result.{permanent, Result, ok, ◌>>=◌, ◌>>◌, raise_if, require}
use find_me_gamer.Match.Model.{Uuid, Timestamp, Clock}
use find_me_gamer.Jobs.Model.{
  TargetType, game, creator, JobStatus, finalizing, of_profile, AnalysisJob, is_job_running,
  is_job_succeeded, is_finalizing, same_target,
}
use find_me_gamer.Jobs.Transitions.{
  state_invalid, require_valid, require_result, aware_now, JobLease,
}

-- What a finalization is given: the source's identity, the interval of the settings, if they are there,
-- the identity for a new profile and `rstrip`.
pub record Publication : Type 0 where
  pub source_id : String
  pub source_url : String
  pub interval_days : Option ℕ
  pub new_profile_id : Uuid
  pub rstrip : String → String

pub record Profile : Type 0 where
  pub id : Uuid
  pub target_id : String
  pub canonical_url : String
  pub last_analyzed_at : Timestamp
  pub next_analysis_at : Timestamp

abbrev pub max_interval : TargetType → ℕ
max_interval game = 90
max_interval creator = 30

abbrev pub interval_code : TargetType → String
interval_code game = "game_interval_invalid"
interval_code creator = "creator_interval_invalid"

abbrev pub mismatch_code : TargetType → String
mismatch_code game = "steam_source_identity_mismatch"
mismatch_code creator = "youtube_source_identity_mismatch"

abbrev pub of_target : String → Profile → Bool
of_target target_id profile = str_eq profile.target_id target_id

abbrev pub day : ℕ
day = 86400000000

unfoldable pub published : Publication → ℕ → Timestamp → Profile → Profile
published p interval now profile = record profile {
  canonical_url = p.source_url;
  last_analyzed_at = now;
  next_analysis_at = now + interval * day;
}

-- The profile with its changes, and the table.
unfoldable pub upsert :
    Publication → String → ℕ → Timestamp → Option Profile → List Profile → Uuid × List Profile
unfolding published
upsert p target_id interval now none rows = (
  p.new_profile_id,
  rows
      ++ (published p interval now (record {
        id = p.new_profile_id;
        target_id = target_id;
        canonical_url = p.source_url;
        last_analyzed_at = now;
        next_analysis_at = now;
      })
          ∷ []),
)
upsert p target_id interval now (some profile) rows =
    (profile.id, update (of_target target_id) (published p interval now) rows)

unfoldable pub succeeded : Timestamp → Uuid → AnalysisJob → AnalysisJob
succeeded now profile_id job = record job {
  status = JobStatus.succeeded;
  stage = some finalizing;
  completed_units = job.total_units;
  profile_id = some profile_id;
  result_payload = some (of_profile profile_id);
  completed_at = some now;
  error_code = none;
  error_message = none;
  retryable = false;
}

abbrev pub same_url : Publication → String → String → Bool
same_url p a b = str_eq (p.rstrip a) (p.rstrip b)

-- `finalize` of either service, of a Job that has not succeeded
unfoldable pub finalize_running :
    TargetType
    → Clock
    → JobLease
    → Publication
    → AnalysisJob
    → List Profile
    → Result (Uuid × AnalysisJob × List Profile)
unfolding require_valid upsert succeeded
finalize_running kind clock lease p job profiles = do
  raise_if (not (is_job_running job.status)) (permanent state_invalid)
  raise_if (not (is_finalizing job.stage)) (permanent "analysis_job_stage_invalid")
  raise_if (not (str_eq p.source_id lease.target_id && same_url p p.source_url lease.canonical_url))
      (permanent (mismatch_code kind))
  interval ← require p.interval_days (permanent "shared_settings_missing")
  raise_if (not (leb 1 interval && leb interval (max_interval kind)))
      (permanent (interval_code kind))
  now ← aware_now clock
  let (profile_id, rows) =
      upsert p lease.target_id interval now (find (of_target lease.target_id) profiles) profiles
  require_valid (succeeded now profile_id job)
  ok (profile_id, succeeded now profile_id job, rows)

unfoldable pub finalize :
    TargetType
    → (AnalysisJob → Bool)
    → Clock
    → JobLease
    → Publication
    → AnalysisJob
    → List Profile
    → Result (Uuid × AnalysisJob × List Profile)
unfolding require_valid require_result finalize_running
finalize kind has_profile clock lease p job profiles = do
  raise_if (not (same_target job.target_type kind)) (permanent "analysis_job_target_invalid")
  raise_if
      (not (
        str_eq job.canonical_target_id lease.target_id
        && same_url p job.canonical_url lease.canonical_url))
      (permanent "analysis_job_identity_changed")
  if is_job_succeeded job.status
      then (do
        require_result has_profile job
        require_valid job
        profile_id ← require job.profile_id (permanent "analysis_job_result_invalid")
        ok (profile_id, job, profiles))
      else finalize_running kind clock lease p job profiles
