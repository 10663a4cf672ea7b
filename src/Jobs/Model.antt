-- ===== src/Jobs/Model.antt =====
-- The row of an Analysis Job (`AnalysisJob` of backend/app/db/models/jobs.py and the enumerations of
-- backend/app/db/models/enums.py).
--
-- A JSON value that is null and the SQL NULL are both `none`.
use find_me_gamer.Prelude.{ℕ, Bool, true, false, Option, some, String, ◌==◌}
use find_me_gamer.Match.Model.{Uuid, Timestamp, Json}

pub data TargetType : Type 0 where
  game creator : TargetType

pub data JobMode : Type 0 where
  create reanalyze : JobMode

pub data JobStatus : Type 0 where
  queued running succeeded failed : JobStatus

pub data AnalysisStage : Type 0 where
  fetching_data analyzing finalizing : AnalysisStage

-- `result_payload`: the object with one key, `profile_id`, or anything else.
pub data ResultPayload : Type 0 where
  of_profile : Uuid → ResultPayload
  other_payload : Json → ResultPayload

pub record AnalysisJob : Type 0 where
  pub id : Uuid
  pub target_type : TargetType
  pub canonical_target_id : String
  pub canonical_url : String
  pub mode : JobMode
  pub status : JobStatus
  pub stage : Option AnalysisStage
  pub completed_units : ℕ
  pub total_units : ℕ
  pub error_code : Option String
  pub error_message : Option String
  pub retryable : Bool
  pub profile_id : Option Uuid
  pub result_payload : Option ResultPayload
  pub correlation_id : Option String
  pub created_at : Timestamp
  pub updated_at : Timestamp
  pub started_at : Option Timestamp
  pub completed_at : Option Timestamp

abbrev pub is_job_queued : JobStatus → Bool
is_job_queued JobStatus.queued = true
is_job_queued _ = false

abbrev pub is_job_running : JobStatus → Bool
is_job_running JobStatus.running = true
is_job_running _ = false

abbrev pub is_job_succeeded : JobStatus → Bool
is_job_succeeded JobStatus.succeeded = true
is_job_succeeded _ = false

abbrev pub is_job_failed : JobStatus → Bool
is_job_failed JobStatus.failed = true
is_job_failed _ = false

-- `status IN ('queued', 'running')`
abbrev pub is_active : JobStatus → Bool
is_active JobStatus.queued = true
is_active JobStatus.running = true
is_active _ = false

abbrev pub is_finalizing : Option AnalysisStage → Bool
is_finalizing (some finalizing) = true
is_finalizing _ = false

abbrev pub same_target : TargetType → TargetType → Bool
same_target game game = true
same_target creator creator = true
same_target _ _ = false

abbrev pub has_job_id : Uuid → AnalysisJob → Bool
has_job_id job_id job = job.id == job_id
