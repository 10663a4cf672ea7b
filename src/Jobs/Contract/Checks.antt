-- ===== src/Jobs/Contract/Checks.antt =====
-- The CHECK constraints of an Analysis Job's row (backend/app/db/models/jobs.py, with the texts of
-- backend/app/core/analysis_job_contract.py), in SQL's logic of three values.
use find_me_gamer.Prelude.{
  Bool, true, false, not, ◌&&◌, Option, none, some, List, String, ◌==◌, ltb, leb, str_eq, is_some,
  is_none, if◌then◌else◌,
}
use find_me_gamer.Match.Model.{Uuid, Timestamp}
use find_me_gamer.Jobs.Model.{
  AnalysisStage, ResultPayload, AnalysisJob, is_job_queued, is_job_running, is_job_succeeded,
  is_job_failed, is_finalizing,
}
use find_me_gamer.Jobs.Contract.{
  temporary_message, permanent_message, internal_message, queue_message, has_code,
  integration_error_codes, retryable_integration_error_codes, is_profile_payload,
}

-- SQL's truth values; `none` is NULL.
abbrev pub Sql : Type 0
Sql = Option Bool

infixr 35 ◌and◌
abbrev pub ◌and◌ : Sql → Sql → Sql
some false and y = some false
some true and y = y
none and some false = some false
none and some true = none
none and none = none

infixr 30 ◌or◌
abbrev pub ◌or◌ : Sql → Sql → Sql
some true or y = some true
some false or y = y
none or some true = some true
none or some false = none
none or none = none

-- A CHECK constraint rejects a row only where it is false.
abbrev pub passes : Sql → Bool
passes none = true
passes (some b) = b

-- `column IN (...)` and `column = '...'`
abbrev pub in_sql : List String → Option String → Sql
in_sql codes none = none
in_sql codes (some code) = some (has_code codes code)

abbrev pub not_in_sql : List String → Option String → Sql
not_in_sql codes none = none
not_in_sql codes (some code) = some (not (has_code codes code))

abbrev pub text_is_sql : String → Option String → Sql
text_is_sql text none = none
text_is_sql text (some value) = some (str_eq text value)

-- `stage = 'finalizing'`
abbrev pub finalizing_sql : Option AnalysisStage → Sql
finalizing_sql none = none
finalizing_sql (some stage) = some (is_finalizing (some stage))

-- `column >= from`, and `completed_at >= started_at`
abbrev pub not_before_sql : Timestamp → Option Timestamp → Sql
not_before_sql from none = none
not_before_sql from (some time) = some (leb from time)

abbrev pub not_before_start_sql : Option Timestamp → Option Timestamp → Sql
not_before_start_sql none completed = none
not_before_start_sql (some start) completed = not_before_sql start completed

-- `result_payload = jsonb_build_object('profile_id', profile_id::text)`. A payload that Python reads as
-- None is the JSON null, which differs from every object, or the SQL NULL.
abbrev pub payload_sql : Bool → Option Uuid → Option ResultPayload → Sql
payload_sql json_null profile_id none = if json_null then some false else none
payload_sql json_null profile_id (some payload) =
    some (is_profile_payload profile_id (some payload))

-- PUBLIC_JOB_ERROR_MAPPING_SQL. The codes that are not retryable are those that the first list holds
-- and the second does not.
unfoldable pub error_mapping_sql : Option String → Option String → Bool → Sql
error_mapping_sql code message retryable =
    ((in_sql integration_error_codes code and not_in_sql retryable_integration_error_codes code)
      and text_is_sql permanent_message message
      and some (not retryable))
    or (in_sql retryable_integration_error_codes code
        and text_is_sql temporary_message message
        and some retryable)
    or (text_is_sql "analysis_internal_error" code
        and text_is_sql internal_message message
        and some retryable)
    or (text_is_sql "analysis_queue_unavailable" code
        and text_is_sql queue_message message
        and some retryable)

-- ANALYSIS_JOB_STATUS_SHAPE_SQL; `json_null` tells how a missing payload is stored.
unfoldable pub status_shape_sql : Bool → AnalysisJob → Sql
status_shape_sql json_null job =
    some (leb job.created_at job.updated_at)
    and ((some (is_job_queued job.status)
          and some (is_none job.stage)
          and some (job.completed_units == 0)
          and some (job.total_units == 0)
          and some (is_none job.error_code)
          and some (is_none job.error_message)
          and some (not job.retryable)
          and some (is_none job.profile_id)
          and some (is_none job.result_payload)
          and some (is_none job.started_at)
          and some (is_none job.completed_at))
        or (some (is_job_running job.status)
            and some (is_some job.stage)
            and some (ltb 0 job.total_units)
            and some (ltb job.completed_units job.total_units)
            and some (is_none job.error_code)
            and some (is_none job.error_message)
            and some (not job.retryable)
            and some (is_none job.profile_id)
            and some (is_none job.result_payload)
            and some (is_some job.started_at)
            and not_before_sql job.created_at job.started_at
            and some (is_none job.completed_at))
        or (some (is_job_succeeded job.status)
            and finalizing_sql job.stage
            and some (ltb 0 job.total_units)
            and some (job.completed_units == job.total_units)
            and some (is_none job.error_code)
            and some (is_none job.error_message)
            and some (not job.retryable)
            and some (is_some job.profile_id)
            and payload_sql json_null job.profile_id job.result_payload
            and some (is_some job.started_at)
            and not_before_sql job.created_at job.started_at
            and some (is_some job.completed_at)
            and not_before_start_sql job.started_at job.completed_at)
        or (some (is_job_failed job.status)
            and some (is_some job.error_code)
            and some (is_some job.error_message)
            and some (is_none job.profile_id)
            and some (is_none job.result_payload)
            and some (is_some job.completed_at)
            and not_before_sql job.created_at job.completed_at
            and ((some (is_none job.stage)
                  and some (job.completed_units == 0)
                  and some (job.total_units == 0)
                  and some (is_none job.started_at))
                or (some (is_some job.stage)
                    and some (ltb 0 job.total_units)
                    and some (ltb job.completed_units job.total_units)
                    and some (is_some job.started_at)
                    and not_before_sql job.created_at job.started_at
                    and not_before_start_sql job.started_at job.completed_at))))

-- The CHECK constraints of the table; those on the enumerations and the signs hold by type.
unfoldable pub job_checks : Bool → AnalysisJob → Bool
unfolding status_shape_sql
job_checks json_null job =
    passes (some (leb job.completed_units job.total_units))
    && passes (some (is_job_failed job.status) or some (not job.retryable))
    && passes (
        some (not (is_job_failed job.status))
        or error_mapping_sql job.error_code job.error_message job.retryable)
    && passes (status_shape_sql json_null job)
