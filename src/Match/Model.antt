-- ===== src/Match/Model.antt =====
-- The tables of one Match task (backend/app/db/models/match.py), and the identities, clocks and
-- JSON values that their rows hold.
--
-- A UUID is its integer, and the nil UUID is 0. A timestamp counts microseconds. A JSONB column
-- holds the text of its JSON value. The rows of a table are those of one task, since every query of
-- the modelled code selects by `match_task_id`.
use find_me_gamer.Prelude.{ℕ, Bool, true, false, Option, List, String, map, filter}

abbrev pub Uuid : Type 0
Uuid = ℕ

abbrev pub Timestamp : Type 0
Timestamp = ℕ

abbrev pub Json : Type 0
Json = String

-- `self._clock()`: `none` is a value with no timezone, which `_aware_utc` rejects.
abbrev pub Clock : Type 0
Clock = Option Timestamp

pub data MatchStatus : Type 0 where
  queued running succeeded failed superseded : MatchStatus

pub data MatchStage : Type 0 where
  screening pairwise ranking : MatchStage

pub data PairwiseState : Type 0 where
  queued running succeeded failed : PairwiseState

pub data MatchResultGroup : Type 0 where
  recommended other : MatchResultGroup

pub record MatchTask : Type 0 where
  pub locked_game_brief : Option Json
  pub recommended_match_threshold : ℕ  -- Numeric(5, 4), in units of 0.0001
  pub status : MatchStatus
  pub stage : MatchStage
  pub completed_units : ℕ
  pub total_units : ℕ
  pub result_count : ℕ
  pub error_code : Option String
  pub error_message : Option String
  pub retryable : Bool
  pub input_expires_at : Timestamp
  pub ranking_enqueued_at : Option Timestamp
  pub started_at : Option Timestamp
  pub completed_at : Option Timestamp
  pub created_at : Timestamp
  pub updated_at : Timestamp

pub record MatchScreeningRecord : Type 0 where
  pub creator_id : Uuid
  pub screening_order : ℕ
  pub locked_creator_brief : Option Json
  pub selected : Bool
  pub screening_reason : Option String

pub record MatchCandidateInput : Type 0 where
  pub creator_id : Uuid
  pub locked_creator_profile : Option Json
  pub input_model_metadata : Option Json
  pub input_prompt_metadata : Option Json

pub record MatchPairwiseRecord : Type 0 where
  pub creator_id : Uuid
  pub state : PairwiseState
  pub attempt_count : ℕ
  pub match_brief : Option Json
  pub error_code : Option String
  pub error_message : Option String
  pub retryable : Bool
  pub started_at : Option Timestamp
  pub completed_at : Option Timestamp
  pub created_at : Timestamp
  pub updated_at : Timestamp

-- The five dimensions of a brief, of the hidden scores and of the public outcomes.
pub record Dimensions (A : Type 0) : Type 0 where
  pub content_fit : A
  pub audience_fit : A
  pub performance_fit : A
  pub promotion_fit : A
  pub brand_safety : A

pub record MatchResultItem : Type 0 where
  pub creator_id : Uuid
  pub backend_order : ℕ
  pub match_brief : Json
  pub total_score : ℕ  -- Numeric(5, 4), in units of 0.0001
  pub dimension_scores : Dimensions ℕ
  pub dimension_outcomes : Dimensions String
  pub match_reasons : List String
  pub result_group : MatchResultGroup
  pub qualitative_label : String

-- The rows that belong to one task. Screening records stand in the order of `screening_order`.
pub record MatchTables : Type 0 where
  pub task : Option MatchTask
  pub screening : List MatchScreeningRecord
  pub candidates : List MatchCandidateInput
  pub pairs : List MatchPairwiseRecord
  pub results : List MatchResultItem
  pub campaigns : ℕ  -- the OutreachCampaign rows with this match_task_id

abbrev pub is_status_succeeded : MatchStatus → Bool
is_status_succeeded MatchStatus.succeeded = true
is_status_succeeded _ = false

abbrev pub is_status_running : MatchStatus → Bool
is_status_running MatchStatus.running = true
is_status_running _ = false

abbrev pub is_status_queued : MatchStatus → Bool
is_status_queued MatchStatus.queued = true
is_status_queued _ = false

abbrev pub is_status_failed : MatchStatus → Bool
is_status_failed MatchStatus.failed = true
is_status_failed _ = false

abbrev pub is_status_superseded : MatchStatus → Bool
is_status_superseded MatchStatus.superseded = true
is_status_superseded _ = false

abbrev pub is_stage_screening : MatchStage → Bool
is_stage_screening screening = true
is_stage_screening _ = false

abbrev pub is_stage_pairwise : MatchStage → Bool
is_stage_pairwise pairwise = true
is_stage_pairwise _ = false

abbrev pub is_stage_ranking : MatchStage → Bool
is_stage_ranking ranking = true
is_stage_ranking _ = false

abbrev pub is_pair_succeeded : PairwiseState → Bool
is_pair_succeeded PairwiseState.succeeded = true
is_pair_succeeded _ = false

abbrev pub is_pair_failed : PairwiseState → Bool
is_pair_failed PairwiseState.failed = true
is_pair_failed _ = false

abbrev pub is_pair_running : PairwiseState → Bool
is_pair_running PairwiseState.running = true
is_pair_running _ = false

abbrev pub is_pair_queued : PairwiseState → Bool
is_pair_queued PairwiseState.queued = true
is_pair_queued _ = false

-- The rows that `MatchScreeningRecord.selected.is_(True)` selects, in screening order.
abbrev pub selected_ids : List MatchScreeningRecord → List Uuid
selected_ids rows = map (λ (r : MatchScreeningRecord). r.creator_id) (filter (λ r. r.selected) rows)

abbrev pub screening_ids : List MatchScreeningRecord → List Uuid
screening_ids = map (λ (r : MatchScreeningRecord). r.creator_id)

abbrev pub candidate_ids : List MatchCandidateInput → List Uuid
candidate_ids = map (λ (r : MatchCandidateInput). r.creator_id)

abbrev pub pair_ids : List MatchPairwiseRecord → List Uuid
pair_ids = map (λ (r : MatchPairwiseRecord). r.creator_id)

abbrev pub result_ids : List MatchResultItem → List Uuid
result_ids = map (λ (r : MatchResultItem). r.creator_id)

-- One qualitative comparison of the locked Game with one Creator (schemas/ai_match.py).
pub record MatchDimensionAnalysis : Type 0 where
  pub analysis : String
  pub evidence : List String

pub record PairwiseMatchBrief : Type 0 where
  pub creator_id : Uuid
  pub dimensions : Dimensions MatchDimensionAnalysis
  pub strengths : List String
  pub risks : List String
  pub evidence : List String
  pub match_reasons : List String

-- Pydantic at the schema `PairwiseMatchBrief`: `model_dump(mode="json")`, the validation of a stored
-- value and of the dump of a brief. `none` is a ValidationError.
pub record BriefSchema : Type 0 where
  pub model_dump : PairwiseMatchBrief → Json
  pub model_validate_json : Json → Option PairwiseMatchBrief
  pub model_validate : PairwiseMatchBrief → Option PairwiseMatchBrief
