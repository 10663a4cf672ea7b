-- ===== src/Match/Retention/Purged.antt =====
-- What a purge leaves (backend/app/matching/retention.py).
use find_me_gamer.Prelude.{◌≤◌, ◌≡◌, ◌||◌, true, none, some, List, [], ◌∷◌}
use find_me_gamer.Match.Model.{
  Timestamp, MatchTask, MatchScreeningRecord, MatchCandidateInput, MatchTables, is_status_succeeded,
  is_status_failed, is_status_superseded,
}

pub data Pointwise {ℓ κ} {A : Type ℓ} (R : A → A → Type κ) : List A → List A → Type (ℓ ⊔ κ) where
  none_left : Pointwise R [] []
  both : {x y : A} {xs ys : List A} → R x y → Pointwise R xs ys → Pointwise R (x ∷ xs) (y ∷ ys)

-- The later row holds no input, and with the inputs put back it is the earlier row.
abbrev pub ScreeningCleared : MatchScreeningRecord → MatchScreeningRecord → Type 0
ScreeningCleared x y =
    (y.locked_creator_brief ≡ none)
    × ((record y { locked_creator_brief = x.locked_creator_brief }) ≡ x)

abbrev pub CandidateCleared : MatchCandidateInput → MatchCandidateInput → Type 0
CandidateCleared x y =
    (y.locked_creator_profile ≡ none)
    × (y.input_model_metadata ≡ none)
    × (y.input_prompt_metadata ≡ none)
    × ((record y {
      locked_creator_profile = x.locked_creator_profile;
      input_model_metadata = x.input_model_metadata;
      input_prompt_metadata = x.input_prompt_metadata;
    })
        ≡ x)

abbrev pub TaskCleared : MatchTask → MatchTask → Type 0
TaskCleared x y =
    (y.locked_game_brief ≡ none) × ((record y { locked_game_brief = x.locked_game_brief }) ≡ x)

-- A task has ended, and its retention too.
abbrev pub IsDue : Timestamp → MatchTask → Type 0
IsDue now task =
    (task.input_expires_at ≤ now)
    × ((is_status_succeeded task.status
          || is_status_failed task.status
          || is_status_superseded task.status)
        ≡ true)

-- The rows of a task that is due lose their inputs and nothing else, none of them is dropped; those of
-- any other task are as they were.
pub record IsPurged (now : Timestamp) (t u : MatchTables) : Type 0 where
  pub cleared_rows :
      (task : MatchTask)
      → t.task ≡ some task
      → IsDue now task
      → ((task' : MatchTask) × (u.task ≡ some task') × TaskCleared task task')
        × Pointwise ScreeningCleared t.screening u.screening
        × Pointwise CandidateCleared t.candidates u.candidates
  pub same_pairs : u.pairs ≡ t.pairs
  pub same_results : u.results ≡ t.results
  pub same_campaigns : u.campaigns ≡ t.campaigns
  pub kept : (task : MatchTask) → t.task ≡ some task → ¬ IsDue now task → u ≡ t
