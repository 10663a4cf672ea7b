-- ===== src/Match/Creation.antt =====
-- The creation of a Match task: the Game and every eligible Creator, frozen in one transaction
-- (`MatchRepository.create_locked_task` of backend/app/repositories/match.py).
use find_me_gamer.Prelude.{
  ℕ, ◌+◌, ◌-◌, Bool, true, false, not, ◌&&◌, ◌||◌, Option, none, some, List, [], ◌∷◌, String, map,
  ◌==◌, ltb, is_none, str_eq, if◌then◌else◌, find,
}
use find_me_gamer.Prelude.Sets.{distinct}
use find_me_gamer.Result.{input_error, value_error, Result, ok, ◌>>=◌, ◌>>◌, raise_if, require}
use find_me_gamer.Match.Model.{
  Uuid, Timestamp, Json, Clock, MatchStatus, screening, MatchTask, MatchScreeningRecord,
  MatchCandidateInput, MatchTables,
}
use find_me_gamer.Match.Ranking.Output.{unit_score}

-- A value of a Creator's `source_status`: a text, an object with or without a text under "status",
-- or anything else, which is also what a missing key gives.
pub data StatusValue : Type 0 where
  text : String → StatusValue
  object : Option String → StatusValue
  other_value : StatusValue

-- The keys of `source_status` that the code reads.
pub record SourceStatus : Type 0 where
  pub seed : StatusValue
  pub youtube : StatusValue
  pub freshness : StatusValue

pub record CreatorProfile : Type 0 where
  pub id : Uuid
  pub last_analyzed_at : Option Timestamp
  pub source_status : Option SourceStatus  -- `none` is no object
  pub brief : Option Json
  pub profile : Json  -- the columns that `_creator_snapshot` copies
  pub model_metadata : Json
  pub prompt_metadata : Json

pub record GameProfile : Type 0 where
  pub brief : Option Json

-- Python's `str.casefold`, `random.Random(seed).shuffle` of a sorted list, the projection of JSON
-- values to what a Match may read, and the snapshot of a Creator beside a validated brief.
pub record CreationSchema : Type 0 where
  pub casefold : String → String
  pub shuffle : ℕ → List Uuid → List Uuid
  pub is_game_brief : Json → Bool
  pub is_creator_brief : Json → Bool
  pub relevant_json : Json → Json
  pub creator_snapshot : Json → Json → Json

-- `MATCH_INPUT_RETENTION`, 30 days in microseconds.
abbrev pub match_input_retention : ℕ
match_input_retention = 2592000000000

module _ (schema : CreationSchema) where
  status_text : StatusValue → Option String
  status_text (text value) = some (schema.casefold value)
  status_text (object none) = none
  status_text (object (some value)) = some (schema.casefold value)
  status_text other_value = none

  is_text : String → StatusValue → Bool
  is_text expected (text value) = str_eq value expected
  is_text expected _ = false

  abbrev is_value : String → Option String → Bool
  is_value expected none = false
  is_value expected (some value) = str_eq value expected

  -- `_youtube_source_is_current`
  unfoldable pub youtube_source_is_current : Option SourceStatus → Bool
  unfolding status_text is_text
  youtube_source_is_current none = false
  youtube_source_is_current (some source) =
      let youtube = status_text source.youtube in
      let freshness = status_text source.freshness in
      not (is_text "incomplete" source.seed)
      && (is_none freshness || is_value "current" freshness)
      && (is_value "current" youtube
          || (is_value "available" youtube && is_value "current" freshness))

  -- `_eligible_creator_brief`
  unfoldable pub eligible_creator_brief : Timestamp → CreatorProfile → Option Json
  unfolding youtube_source_is_current
  eligible_creator_brief cutoff creator =
      if elim creator.last_analyzed_at [ none ↦ true | some t ↦ ltb t cutoff ]
      then none
      else if not (youtube_source_is_current creator.source_status)
      then none
      else elim creator.brief [
        | none ↦ none
        | some brief ↦ if schema.is_creator_brief brief then some brief else none
      ]

  -- The dictionary `eligible`, in the order of the rows.
  unfoldable pub eligible_creators :
      Timestamp → List CreatorProfile → List (Uuid × CreatorProfile × Json)
  unfolding eligible_creator_brief
  eligible_creators cutoff [] = []
  eligible_creators cutoff (creator ∷ rest) =
      let later = eligible_creators cutoff rest in
      elim (eligible_creator_brief cutoff creator) [
        | none ↦ later
        | some brief ↦ (creator.id, creator, brief) ∷ later
      ]

  abbrev pub eligible_ids : List (Uuid × CreatorProfile × Json) → List Uuid
  eligible_ids = map (λ (e : Uuid × CreatorProfile × Json). e.0)

  -- `stable_shuffled_creator_ids`; the rows come sorted by their identity.
  unfoldable pub stable_shuffled_creator_ids : List Uuid → ℕ → Result (List Uuid)
  stable_shuffled_creator_ids creator_ids seed = do
    raise_if (not (distinct creator_ids)) value_error
    ok (schema.shuffle seed creator_ids)

  screening_record : ℕ → Uuid × CreatorProfile × Json → MatchScreeningRecord
  screening_record order (creator_id, creator, brief) = record {
    creator_id = creator_id;
    screening_order = order;
    locked_creator_brief = some brief;
    selected = false;
    screening_reason = none;
  }

  unfoldable pub candidate_input : Uuid × CreatorProfile × Json → MatchCandidateInput
  candidate_input (creator_id, creator, brief) = record {
    creator_id = creator_id;
    locked_creator_profile = some (schema.creator_snapshot creator.profile brief);
    input_model_metadata = some (schema.relevant_json creator.model_metadata);
    input_prompt_metadata = some (schema.relevant_json creator.prompt_metadata);
  }

  -- `eligible[creator_id]` for each shuffled identity; a missing key is a KeyError.
  unfoldable pub look_up :
      List (Uuid × CreatorProfile × Json) → List Uuid → Result (List (Uuid × CreatorProfile × Json))
  look_up eligible [] = ok []
  look_up eligible (creator_id ∷ rest) =
      let later = look_up eligible rest in
      do
        entry ←
            require (find (λ (e : Uuid × CreatorProfile × Json). e.0 == creator_id) eligible)
              value_error
        entries ← later
        ok (entry ∷ entries)

  -- `for screening_order, creator_id in enumerate(...)`
  unfoldable pub screening_records :
      ℕ → List (Uuid × CreatorProfile × Json) → List MatchScreeningRecord
  unfolding screening_record
  screening_records order [] = []
  screening_records order (entry ∷ rest) =
      screening_record order entry ∷ screening_records (order + 1) rest

  unfoldable pub created_task : Timestamp → ℕ → Json → MatchTask
  created_task now threshold game_brief = record {
    locked_game_brief = some game_brief;
    recommended_match_threshold = threshold;
    status = MatchStatus.queued;
    stage = screening;
    completed_units = 0;
    total_units = 0;
    result_count = 0;
    error_code = none;
    error_message = none;
    retryable = false;
    input_expires_at = now + match_input_retention;
    ranking_enqueued_at = none;
    started_at = none;
    completed_at = none;
    created_at = now;
    updated_at = now;
  }

  -- The rows of the new task. `seed` is a signed 64-bit integer as a bit pattern.
  unfoldable pub create_locked_task :
      Clock → ℕ → ℕ → Option GameProfile → List CreatorProfile → Result MatchTables
  unfolding eligible_creators stable_shuffled_creator_ids look_up screening_records candidate_input
      created_task
  create_locked_task clock seed threshold found_game creators = do
    raise_if (ltb unit_score threshold) value_error
    now ← require clock value_error
    game ← require found_game (input_error "game_profile_not_found")
    game_brief ← require game.brief (input_error "game_brief_invalid")
    raise_if (not (schema.is_game_brief game_brief)) (input_error "game_brief_invalid")
    let eligible = eligible_creators (now - match_input_retention) creators
    ordered ← stable_shuffled_creator_ids (eligible_ids eligible) seed
    entries ← look_up eligible ordered
    ok (record {
      task = some (created_task now threshold game_brief);
      screening = screening_records 0 entries;
      candidates = map candidate_input entries;
      pairs = [];
      results = [];
      campaigns = 0;
    })
