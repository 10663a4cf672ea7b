-- ===== src/Match/Worker/Codes.antt =====
-- The allowlisted failure codes of backend/app/workers/match_tasks.py.
use find_me_gamer.Prelude.{
  Bool, true, false, not, ◌||◌, List, [], ◌∷◌, String, bool_eq, str_eq, if◌then◌else◌,
}
use find_me_gamer.Result.{
  Failure, checkpoint, input_error, invalid_output, invalid_screening, transient, permanent,
  api_error, value_error, Result, ok, err,
}

abbrev pub temporary_match_failure : String
temporary_match_failure = "Match is temporarily unavailable. Please retry."

abbrev pub permanent_match_failure : String
permanent_match_failure = "Match could not be completed. Please retry."

abbrev pub internal_match_failure : String
internal_match_failure = "Match failed unexpectedly. Please retry."

unfoldable pub retryable_codes : List String
retryable_codes =
    "deepseek_model_output_invalid" ∷ "deepseek_unavailable" ∷ "match_database_unavailable"
    ∷ "match_internal_error" ∷ "match_queue_unavailable" ∷ []

unfoldable pub permanent_codes : List String
permanent_codes =
    "deepseek_configuration_invalid" ∷ "deepseek_input_invalid" ∷ "deepseek_request_rejected"
    ∷ "deepseek_response_invalid" ∷ "deepseek_response_too_large"
    ∷ "locked_creator_identity_invalid" ∷ "locked_creator_profile_invalid"
    ∷ "locked_game_brief_invalid" ∷ "match_candidate_not_selected" ∷ "match_checkpoint_invalid"
    ∷ "match_clock_invalid" ∷ "match_pair_checkpoint_invalid" ∷ "match_pair_identity_invalid"
    ∷ "match_pair_not_found" ∷ "match_pair_not_runnable" ∷ "match_pair_not_running"
    ∷ "match_task_not_found" ∷ "match_task_not_preparable" ∷ "match_task_not_rankable"
    ∷ "match_publication_invalid" ∷ "match_ranking_checkpoint_invalid" ∷ "screening_output_invalid"
    ∷ "screening_output_unknown_creator" ∷ []

-- `code in codes`
unfoldable pub is_listed : String → List String → Bool
is_listed code [] = false
is_listed code (c ∷ codes) = str_eq code c || is_listed code codes

pub record PairwiseTerminalFailure : Type 0 where
  pub code : String
  pub message : String
  pub retryable : Bool

-- `_failure_shape`
unfoldable pub failure_shape : String → PairwiseTerminalFailure
failure_shape code =
    if is_listed code retryable_codes
    then record {
      code = code;
      message =
          if str_eq code "match_internal_error"
          then internal_match_failure
          else temporary_match_failure;
      retryable = true;
    }
    else if is_listed code permanent_codes
    then record { code = code; message = permanent_match_failure; retryable = false }
    else record {
      code = "match_internal_error";
      message = internal_match_failure;
      retryable = true;
    }

-- `PairwiseTerminalFailure.__post_init__`
unfoldable pub make_failure : PairwiseTerminalFailure → Result PairwiseTerminalFailure
unfolding failure_shape
make_failure failure =
    let expected = failure_shape failure.code in
    if not (str_eq failure.code expected.code)
      || not (str_eq failure.message expected.message)
      || not (bool_eq failure.retryable expected.retryable)
    then err value_error
    else ok failure

-- `getattr(error, "code", "match_internal_error")`, with invalid model output under one code.
unfoldable pub failure_code : Failure → String
failure_code invalid_output = "deepseek_model_output_invalid"
failure_code invalid_screening = "deepseek_model_output_invalid"
failure_code (checkpoint code) = code
failure_code (transient code) = code
failure_code (permanent code) = code
failure_code (api_error code) = code
failure_code (input_error code) = "match_internal_error"
failure_code _ = "match_internal_error"
