-- ===== src/Match/Scenarios.antt =====
-- Concrete schemas, Creators and the rows of a new Match task, at which the theorems are applied.
mod Created
mod Ranked
mod Failures
mod Recovered
mod Retained
use find_me_gamer.Prelude.{
  ℕ, ◌-◌, ◌≡◌, refl, true, false, Option, none, some, List, [], ◌∷◌, or_else, str_eq, if◌then◌else◌,
}
use find_me_gamer.Prelude.Sets.{subset_refl}
use find_me_gamer.Result.{ok, ◌>>=◌, ◌>>◌, raise_if, require}
use find_me_gamer.Match.Model.{
  Uuid, Json, MatchStatus, screening, MatchTask, MatchScreeningRecord, MatchCandidateInput,
  MatchTables, PairwiseMatchBrief, Dimensions, MatchDimensionAnalysis, BriefSchema,
}
use find_me_gamer.Match.Pairwise.Claim.{LockedInputSchema}
use find_me_gamer.Match.Screening.{ScreeningSchema}
use find_me_gamer.Match.Ranking.Output.{TextRules}
use find_me_gamer.Match.Creation.{
  text, other_value, CreatorProfile, GameProfile, CreationSchema, create_locked_task,
  eligible_creators,
}
use find_me_gamer.Match.Lifecycle.Created.{Shuffles}
use find_me_gamer.Match.Lifecycle.Runs.{Environment}

abbrev note : MatchDimensionAnalysis
note = record { analysis = "close"; evidence = [] }

abbrev each : {A : Type 0} → A → Dimensions A
each x = record {
  content_fit = x;
  audience_fit = x;
  performance_fit = x;
  promotion_fit = x;
  brand_safety = x;
}

abbrev brief_of_1 : PairwiseMatchBrief
brief_of_1 = record {
  creator_id = 1;
  dimensions = each note;
  strengths = [];
  risks = [];
  evidence = [];
  match_reasons = [];
}

-- A schema that knows one brief.
abbrev briefs : BriefSchema
briefs = record {
  model_dump = λ b. "brief";
  model_validate_json = λ value. if str_eq value "brief" then some brief_of_1 else none;
  model_validate = λ b. some b;
}

abbrev screening_schema : ScreeningSchema
screening_schema = record {
  is_game_brief = λ value. true;
  is_creator_brief = λ value. true;
  is_screening_output = λ selections. true;
  reason_json = λ reason evidence. reason;
}

abbrev locked_schema : LockedInputSchema
locked_schema = record {
  is_game_brief = λ value. true;
  is_mapping = λ value. true;
  has_creator_id = λ value expected. true;
  has_sections = λ value. true;
  builds_prompt = λ game creator. true;
}

abbrev rules : TextRules
rules = record {
  has_valid_texts = λ item. true;
  mentions_mechanics = λ value. str_eq value "threshold";
}

abbrev env : Environment
env = record {
  briefs = briefs;
  screening = screening_schema;
  locked = locked_schema;
  rules = rules;
}

-- A shuffle that keeps the order.
abbrev creation : CreationSchema
creation = record {
  casefold = λ value. value;
  shuffle = λ seed ids. ids;
  is_game_brief = λ value. true;
  is_creator_brief = λ value. true;
  relevant_json = λ value. value;
  creator_snapshot = λ profile brief. profile;
}

creation-Shuffles : Shuffles creation
creation-Shuffles = record {
  keeps_distinct = λ seed ids h. h;
  keeps_members = λ seed ids. rw (subset_refl ids);
}

abbrev creator : Uuid → Option Json → CreatorProfile
creator id brief = record {
  id = id;
  last_analyzed_at = some 2592000000500;
  source_status =
      some (record { seed = other_value; youtube = text "current"; freshness = other_value });
  brief = brief;
  profile = "profile";
  model_metadata = "model";
  prompt_metadata = "prompt";
}

abbrev creators : List CreatorProfile
creators = creator 1 (some "one") ∷ creator 2 (some "two") ∷ creator 3 none ∷ []

abbrev game : Option GameProfile
game = some (record { brief = some "game" })

abbrev screened : Uuid → ℕ → Json → MatchScreeningRecord
screened id order value = record {
  creator_id = id;
  screening_order = order;
  locked_creator_brief = some value;
  selected = false;
  screening_reason = none;
}

abbrev input : Uuid → MatchCandidateInput
input id = record {
  creator_id = id;
  locked_creator_profile = some "profile";
  input_model_metadata = some "model";
  input_prompt_metadata = some "prompt";
}

abbrev base_task : MatchTask
base_task = record {
  locked_game_brief = some "game";
  recommended_match_threshold = 7500;
  status = MatchStatus.queued;
  stage = screening;
  completed_units = 0;
  total_units = 0;
  result_count = 0;
  error_code = none;
  error_message = none;
  retryable = false;
  input_expires_at = 5184000001000;
  ranking_enqueued_at = none;
  started_at = none;
  completed_at = none;
  created_at = 2592000001000;
  updated_at = 2592000001000;
}

-- The rows of the task that `create_locked_task` makes.
abbrev new_tables : MatchTables
new_tables = record {
  task = some base_task;
  screening = screened 1 0 "one" ∷ screened 2 1 "two" ∷ [];
  candidates = input 1 ∷ input 2 ∷ [];
  pairs = [];
  results = [];
  campaigns = 0;
}

abbrev task_of : MatchTables → MatchTask
task_of t = or_else t.task base_task

created_new : create_locked_task creation (some 2592000001000) 7 7500 game creators ≡ ok new_tables
unfolding create_locked_task ◌>>=◌ raise_if require eligible_creators
created_new = refl
