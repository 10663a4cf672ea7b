-- ===== src/Jobs/Contract.antt =====
-- The contract of an Analysis Job's row (backend/app/core/analysis_job_contract.py).
--
-- The columns' types make the tests on Python types hold: the units are numbers, and the timestamps are
-- aware.
pub mod Checks
pub mod Agreement
use find_me_gamer.Prelude.{
  ℕ, Bool, true, false, not, ◌&&◌, ◌||◌, Option, none, some, List, [], ◌∷◌, String, ◌==◌, ltb, leb,
  str_eq, bool_eq, is_some, is_none, if◌then◌else◌,
}
use find_me_gamer.Match.Model.{Uuid, Timestamp}
use find_me_gamer.Jobs.Model.{
  JobStatus, AnalysisStage, finalizing, ResultPayload, of_profile, other_payload, AnalysisJob,
  is_job_queued, is_job_running, is_job_succeeded, is_job_failed, is_finalizing,
}

abbrev pub temporary_message : String
temporary_message = "Analysis is temporarily unavailable. Please retry."

abbrev pub permanent_message : String
permanent_message = "Analysis could not be completed for this target."

abbrev pub internal_message : String
internal_message = "Analysis failed unexpectedly. Please retry."

abbrev pub queue_message : String
queue_message = "Analysis could not be queued. Please retry."

-- `code in codes`
abbrev pub has_code : List String → String → Bool
has_code [] code = false
has_code (c ∷ cs) code = str_eq c code || has_code cs code

unfoldable pub integration_error_codes : List String
integration_error_codes =
    "analysis_clock_invalid" ∷ "analysis_cleanup_failed" ∷ "analysis_configuration_invalid"
    ∷ "analysis_job_identity_changed" ∷ "analysis_job_not_found" ∷ "analysis_job_result_invalid"
    ∷ "analysis_job_stage_invalid" ∷ "analysis_job_state_invalid" ∷ "analysis_job_target_invalid"
    ∷ "artifact_job_id_invalid" ∷ "artifact_name_invalid" ∷ "artifact_payload_invalid"
    ∷ "artifact_payload_too_large" ∷ "creator_interval_invalid" ∷ "deepseek_configuration_invalid"
    ∷ "deepseek_input_invalid" ∷ "deepseek_model_contacts_invalid"
    ∷ "deepseek_model_evidence_invalid" ∷ "deepseek_model_output_invalid"
    ∷ "deepseek_request_rejected" ∷ "deepseek_response_invalid" ∷ "deepseek_response_too_large"
    ∷ "deepseek_unavailable" ∷ "game_interval_invalid" ∷ "public_page_address_rejected"
    ∷ "public_page_content_type_invalid" ∷ "public_page_redirect_invalid"
    ∷ "public_page_redirect_limit" ∷ "public_page_request_rejected" ∷ "public_page_response_invalid"
    ∷ "public_page_too_large" ∷ "public_page_unavailable" ∷ "public_page_url_invalid"
    ∷ "s3_configuration_invalid" ∷ "s3_request_rejected" ∷ "s3_unavailable"
    ∷ "shared_settings_missing" ∷ "steam_app_id_invalid" ∷ "steam_game_not_found"
    ∷ "steam_request_rejected" ∷ "steam_response_invalid" ∷ "steam_response_too_large"
    ∷ "steam_source_identity_mismatch" ∷ "steam_unavailable" ∷ "youtube_channel_id_invalid"
    ∷ "youtube_channel_not_found" ∷ "youtube_configuration_invalid" ∷ "youtube_quota_unavailable"
    ∷ "youtube_request_rejected" ∷ "youtube_response_invalid" ∷ "youtube_response_too_large"
    ∷ "youtube_source_identity_mismatch" ∷ "youtube_target_invalid" ∷ "youtube_unavailable"
    ∷ "youtube_video_limit_invalid" ∷ []

unfoldable pub retryable_integration_error_codes : List String
retryable_integration_error_codes =
    "deepseek_model_contacts_invalid" ∷ "deepseek_model_evidence_invalid"
    ∷ "deepseek_model_output_invalid" ∷ "deepseek_unavailable" ∷ "public_page_unavailable"
    ∷ "s3_unavailable" ∷ "steam_unavailable" ∷ "youtube_quota_unavailable" ∷ "youtube_unavailable"
    ∷ []

pub record PublicJobFailure : Type 0 where
  pub message : String
  pub retryable : Bool

-- `PUBLIC_JOB_FAILURES.get(code)`
unfoldable pub public_job_failure : String → Option PublicJobFailure
public_job_failure code =
    if str_eq "analysis_internal_error" code
    then some (record { message = internal_message; retryable = true })
    else if str_eq "analysis_queue_unavailable" code
    then some (record { message = queue_message; retryable = true })
    else if has_code integration_error_codes code
    then some (record {
      message =
          if has_code retryable_integration_error_codes code
          then temporary_message
          else permanent_message;
      retryable = has_code retryable_integration_error_codes code;
    })
    else none

abbrev pub is_failure : Option PublicJobFailure → String → Bool → Bool
is_failure none message retryable = false
is_failure (some failure) message retryable =
    str_eq message failure.message && bool_eq retryable failure.retryable

-- The tests on the failure, with both texts there.
unfoldable pub has_public_failure : Option String → Option String → Bool → Bool
unfolding public_job_failure
has_public_failure (some code) (some message) retryable =
    is_failure (public_job_failure code) message retryable
has_public_failure _ _ retryable = false

abbrev pub no_earlier : Timestamp → Option Timestamp → Bool
no_earlier from none = true
no_earlier from (some time) = leb from time

abbrev pub no_earlier_than_start : Option Timestamp → Option Timestamp → Bool
no_earlier_than_start none completed = true
no_earlier_than_start (some start) completed = no_earlier start completed

-- The tests before those on the status.
unfoldable pub valid_units_and_times : AnalysisJob → Bool
valid_units_and_times job =
    leb job.completed_units job.total_units
    && leb job.created_at job.updated_at
    && no_earlier job.created_at job.started_at
    && no_earlier job.created_at job.completed_at
    && no_earlier_than_start job.started_at job.completed_at

unfoldable pub valid_failed : AnalysisJob → Bool
unfolding has_public_failure
valid_failed job =
    has_public_failure job.error_code job.error_message job.retryable
    && is_some job.completed_at
    && is_none job.profile_id
    && is_none job.result_payload
    && (if is_none job.stage
        then is_none job.started_at && job.completed_units == 0 && job.total_units == 0
        else is_some job.started_at
          && ltb 0 job.total_units
          && ltb job.completed_units job.total_units)

abbrev pub valid_status : JobStatus → AnalysisJob → Bool
valid_status JobStatus.queued job =
    is_none job.stage
    && job.completed_units == 0
    && job.total_units == 0
    && is_none job.profile_id
    && is_none job.result_payload
    && is_none job.started_at
    && is_none job.completed_at
valid_status JobStatus.running job =
    is_some job.stage
    && ltb job.completed_units job.total_units
    && ltb 0 job.total_units
    && is_none job.profile_id
    && is_none job.result_payload
    && is_some job.started_at
    && is_none job.completed_at
valid_status JobStatus.succeeded job =
    is_finalizing job.stage
    && job.completed_units == job.total_units
    && ltb 0 job.total_units
    && is_some job.profile_id
    && is_some job.result_payload
    && is_some job.started_at
    && is_some job.completed_at
valid_status JobStatus.failed job = false

unfoldable pub valid_unfailed : AnalysisJob → Bool
valid_unfailed job =
    not job.retryable
    && is_none job.error_code
    && is_none job.error_message
    && valid_status job.status job

unfoldable pub valid_analysis_job_state : AnalysisJob → Bool
unfolding valid_units_and_times valid_failed valid_unfailed
valid_analysis_job_state job =
    valid_units_and_times job
    && (if is_job_failed job.status then valid_failed job else valid_unfailed job)

-- `_valid_succeeded_profile_id` of the services asks for this payload of a succeeded Job.
abbrev pub is_profile_payload : Option Uuid → Option ResultPayload → Bool
is_profile_payload (some profile_id) (some (of_profile id)) = profile_id == id
is_profile_payload _ _ = false
