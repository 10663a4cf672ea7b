-- ===== src/Jobs/Contract/Agreement.antt =====
-- The test of backend/app/core/analysis_job_contract.py against the CHECK constraints of the table.
use text.Mathlib.TextEquality.{eq_iff}
use mathlib.Core.Path.{subst}
use find_me_gamer.Prelude.{
  ◌≡◌, ◌⊎◌, refl, sym, ◌∙◌, inl, inr, Bool, true, false, not, ◌&&◌, ◌||◌, Option, none, some, List,
  [], ◌∷◌, String, str_eq, is_some, is_none, all, arith, Bool-cases,
}
use find_me_gamer.Match.Model.{Uuid, Timestamp}
use find_me_gamer.Jobs.Model.{
  JobStatus, AnalysisStage, ResultPayload, AnalysisJob, is_job_succeeded, is_finalizing,
}
use find_me_gamer.Jobs.Contract.{
  has_code, integration_error_codes, retryable_integration_error_codes, permanent_message,
  temporary_message, internal_message, queue_message, public_job_failure, is_failure,
  has_public_failure, no_earlier, no_earlier_than_start, valid_units_and_times, valid_failed,
  valid_unfailed, valid_analysis_job_state, is_profile_payload,
}
use find_me_gamer.Jobs.Contract.Checks.{
  Sql, ◌and◌, ◌or◌, passes, finalizing_sql, not_before_sql, not_before_start_sql, payload_sql,
  error_mapping_sql, status_shape_sql, job_checks,
}

has_code-passes :
    (q : String → Bool) (codes : List String) (code : String)
    → all q codes ≡ true
    → has_code codes code ≡ true
    → q code ≡ true
has_code-passes q [] code h found = absurd (ground arith)
has_code-passes q (c ∷ cs) code h found = elim (Bool-cases (str_eq c code)) [
  | inl here ↦ subst (λ x. q x ≡ true) ((eq_iff c code).0 here) (ground arith)
  | inr elsewhere ↦ has_code-passes q cs code (ground arith) (ground arith)
]

retryable_are_integration :
    (code : String)
    → has_code retryable_integration_error_codes code ≡ true
    → has_code integration_error_codes code ≡ true
unfolding retryable_integration_error_codes integration_error_codes
retryable_are_integration code =
    has_code-passes (has_code integration_error_codes) retryable_integration_error_codes code refl

internal_code_apart : has_code integration_error_codes "analysis_internal_error" ≡ false
unfolding integration_error_codes
internal_code_apart = refl

queue_code_apart : has_code integration_error_codes "analysis_queue_unavailable" ≡ false
unfolding integration_error_codes
queue_code_apart = refl

apart :
    (own code : String)
    → has_code integration_error_codes own ≡ false
    → str_eq own code ≡ true
    → has_code integration_error_codes code ≡ false
apart own code h same =
    subst (λ x. has_code integration_error_codes x ≡ false) ((eq_iff own code).0 same) h

own_codes_differ :
    (code : String)
    → str_eq "analysis_internal_error" code ≡ true
    → str_eq "analysis_queue_unavailable" code ≡ false
own_codes_differ code same =
    subst (λ x. str_eq "analysis_queue_unavailable" x ≡ false)
      ((eq_iff "analysis_internal_error" code).0 same) refl

-- Of a conjunction and of a disjunction in SQL's logic a CHECK asks the same as of Booleans.
passes-and : (x y : Sql) → passes (x and y) ≡ passes x && passes y
passes-and (some true) y = refl
passes-and (some false) y = refl
passes-and none (some true) = refl
passes-and none (some false) = refl
passes-and none none = refl

passes-or : (x y : Sql) → passes (x or y) ≡ passes x || passes y
passes-or (some true) y = refl
passes-or (some false) y = refl
passes-or none (some true) = refl
passes-or none (some false) = refl
passes-or none none = refl

-- The mapping of a failure's code to its public text, in Python and in SQL.
mapping_agrees :
    (code message : String) (retryable : Bool)
    → is_failure (public_job_failure code) message retryable
      ≡ passes (error_mapping_sql (some code) (some message) retryable)
unfolding public_job_failure error_mapping_sql
mapping_agrees code message retryable =
    simp (passes-and, passes-or)
      (ground (
        arith,
        apart "analysis_internal_error" code internal_code_apart,
        apart "analysis_queue_unavailable" code queue_code_apart,
        own_codes_differ code,
        retryable_are_integration code,
        str_eq_symm message permanent_message,
        str_eq_symm message temporary_message,
        str_eq_symm message internal_message,
        str_eq_symm message queue_message,
      ))
  where
    str_eq_symm : (a b : String) → str_eq a b ≡ str_eq b a
    str_eq_symm a b = ground (arith, eq_iff a b, eq_iff b a)

has_mapping_agrees :
    (code message : Option String) (retryable : Bool)
    → has_public_failure code message retryable
      ≡ is_some code && is_some message && passes (error_mapping_sql code message retryable)
unfolding has_public_failure
has_mapping_agrees (some code) (some message) retryable = mapping_agrees code message retryable
has_mapping_agrees (some code) none retryable = refl
has_mapping_agrees none (some message) retryable = refl
has_mapping_agrees none none retryable = refl

abbrev pub has_result : AnalysisJob → Bool
has_result job =
    not (is_job_succeeded job.status) || is_profile_payload job.profile_id job.result_payload

all_three : (a b c : Bool) → a && b && c ≡ true → (a ≡ true) × (b ≡ true) × (c ≡ true)
all_three true true true h = (refl, refl, refl)
all_three true true false h = cc
all_three true false c h = cc
all_three false b c h = cc

payload_there :
    (profile_id : Option Uuid) (payload : Option ResultPayload)
    → is_profile_payload profile_id payload ≡ true
    → is_some profile_id && is_some payload ≡ true
payload_there (some p) (some r) h = refl
payload_there (some p) none h = cc
payload_there none (some r) h = cc
payload_there none none h = cc

-- A succeeded row on which the constraints are NULL rather than false: without a stage, or with a
-- payload that is the SQL NULL.
abbrev is_unknown : Bool → AnalysisJob → Bool
is_unknown json_null job =
    is_job_succeeded job.status
    && (is_none job.stage || (is_none job.result_payload && not json_null))

payload_known :
    (json_null : Bool) (profile_id : Option Uuid) (payload : Option ResultPayload)
    → is_none payload && not json_null ≡ false
    → passes (payload_sql json_null profile_id payload) ≡ is_profile_payload profile_id payload
payload_known true (some p) none known = refl
payload_known true none none known = refl
payload_known false profile_id none known = cc
payload_known json_null profile_id (some payload) known = refl

stage_known :
    (stage : Option AnalysisStage)
    → is_none stage ≡ false
    → passes (finalizing_sql stage) ≡ is_finalizing stage
stage_known none known = cc
stage_known (some stage) known = refl

passes-not_before :
    (from : Timestamp) (time : Option Timestamp)
    → passes (not_before_sql from time) ≡ no_earlier from time
passes-not_before from none = refl
passes-not_before from (some time) = refl

passes-not_before_start :
    (start completed : Option Timestamp)
    → passes (not_before_start_sql start completed) ≡ no_earlier_than_start start completed
passes-not_before_start none completed = refl
passes-not_before_start (some start) completed = passes-not_before start completed

ruleset sql_laws = (passes-and, passes-or, passes-not_before, passes-not_before_start)

agrees_at :
    (status : JobStatus) (json_null : Bool) (job : AnalysisJob)
    → job.status ≡ status
    → is_unknown json_null job ≡ false
    → job_checks json_null job ≡ valid_analysis_job_state job && has_result job
unfolding job_checks valid_analysis_job_state valid_units_and_times valid_failed valid_unfailed
    status_shape_sql
agrees_at JobStatus.queued json_null job is_status known =
    simp is_status (simp sql_laws (ground arith))
agrees_at JobStatus.running json_null job is_status known =
    simp is_status (simp sql_laws (ground arith))
agrees_at JobStatus.succeeded json_null job is_status known =
    let payload = payload_known json_null job.profile_id job.result_payload (ground arith) in
    let stage = stage_known job.stage (ground arith) in
    simp is_status (
      simp (passes-and, passes-or, passes-not_before, passes-not_before_start, payload, stage)
        (ground (arith, payload_there job.profile_id job.result_payload)))
agrees_at JobStatus.failed json_null job is_status known =
    let agrees = has_mapping_agrees job.error_code job.error_message job.retryable in
    elim (Bool-cases (has_public_failure job.error_code job.error_message job.retryable)) [
      | inl public ↦
          let there : is_some job.error_code
                && is_some job.error_message
                && passes (error_mapping_sql job.error_code job.error_message job.retryable)
              ≡ true =
            sym agrees ∙ public in
          let (code, message, mapped) =
            all_three (is_some job.error_code) (is_some job.error_message)
              (passes (error_mapping_sql job.error_code job.error_message job.retryable)) there in
          simp is_status (simp sql_laws (simp (public, code, message, mapped) (ground arith)))
      | inr private ↦
          let missing : is_some job.error_code
                && is_some job.error_message
                && passes (error_mapping_sql job.error_code job.error_message job.retryable)
              ≡ false =
            sym agrees ∙ private in
          simp is_status (simp sql_laws (simp private (ground arith)))
    ]

unknown-invalid :
    (json_null : Bool) (job : AnalysisJob)
    → is_unknown json_null job ≡ true
    → valid_analysis_job_state job ≡ false
unfolding valid_analysis_job_state valid_unfailed
unknown-invalid json_null job unknown = elim (Bool-cases (valid_units_and_times job)) [
  | inl timely ↦ invalid_at job.status refl
  | inr untimely ↦ rw untimely refl
]
  where
    invalid_at : (status : JobStatus) → job.status ≡ status → valid_analysis_job_state job ≡ false
    invalid_at JobStatus.queued is_status = absurd (ground arith)
    invalid_at JobStatus.running is_status = absurd (ground arith)
    invalid_at JobStatus.failed is_status = absurd (ground arith)
    invalid_at JobStatus.succeeded is_status = simp is_status (ground arith)

unknown-missing :
    (json_null : Bool) (job : AnalysisJob) (stage : Option AnalysisStage)
    (payload : Option ResultPayload)
    → job.stage ≡ stage
    → job.result_payload ≡ payload
    → is_unknown json_null job ≡ true
    → (job.stage ≡ none) ⊎ (job.result_payload ≡ none)
unknown-missing json_null job none payload stage_is payload_is unknown = inl stage_is
unknown-missing json_null job (some stage) none stage_is payload_is unknown = inr payload_is
unknown-missing json_null job (some stage) (some payload) stage_is payload_is unknown =
    absurd (ground arith)

-- The test that the code runs before it commits a Job, against the CHECK constraints of the table, in
-- SQL's logic of three values. A row that passes `valid_analysis_job_state` and, when it has succeeded,
-- whose payload names its profile, passes the constraints. A row that passes the constraints passes
-- these tests, or it has succeeded and lacks its stage or its payload, on which the constraints are
-- NULL. Whether a missing payload is the SQL NULL or the JSON null is any.
pub job_checks-agree :
    (json_null : Bool) (job : AnalysisJob)
    → (valid_analysis_job_state job && has_result job ≡ true → job_checks json_null job ≡ true)
      × (job_checks json_null job ≡ true
          → (valid_analysis_job_state job && has_result job ≡ true)
            ⊎ ((is_job_succeeded job.status ≡ true)
                × ((job.stage ≡ none) ⊎ (job.result_payload ≡ none))))
job_checks-agree json_null job = elim (Bool-cases (is_unknown json_null job)) [
  | inl unknown ↦
      let invalid = unknown-invalid json_null job unknown in
      (
        λ valid. absurd (ground arith),
        λ passed. inr (
          ground arith,
          unknown-missing json_null job job.stage job.result_payload refl refl unknown,
        ),
      )
  | inr known ↦
      let agrees = agrees_at job.status json_null job refl known in
      (λ valid. agrees ∙ valid, λ passed. inl (sym agrees ∙ passed))
]
