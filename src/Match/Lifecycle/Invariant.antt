-- ===== src/Match/Lifecycle/Invariant.antt =====
-- The invariant of a Match task and its rows: the CHECK constraints, and what ties the task to the
-- rows of its screening, pairwise and ranking stages.
pub mod Rows
pub mod Selection
pub mod Task
pub mod Decision
pub mod Pairs
pub mod Results
pub mod Purge
use find_me_gamer.Prelude.{ℕ, ◌+◌, ◌≡◌, Bool, true, false, some, [], is_some, all, is_empty, length}
use find_me_gamer.Prelude.Sets.{distinct, same_set}
use find_me_gamer.Match.Model.{
  screening, MatchTask, MatchTables, MatchResultItem, BriefSchema, is_status_succeeded,
  is_stage_screening, is_stage_pairwise, is_stage_ranking, selected_ids, candidate_ids,
  screening_ids, pair_ids,
}
use find_me_gamer.Match.Worker.Prepare.{valid_succeeded_record}
use find_me_gamer.Match.Ranking.Output.{same_group, expected_group}
use find_me_gamer.Match.Ranking.Inputs.{is_published}
use find_me_gamer.Match.Constraints.{task_check, pair_check}

-- The group of a published row agrees with its score and the threshold of the task.
unfoldable pub is_grouped_row : ℕ → MatchResultItem → Bool
is_grouped_row threshold row =
    same_group row.result_group (expected_group threshold row.total_score)

pub record IsConsistent (schema : BriefSchema) (task : MatchTask) (t : MatchTables) : Type 0 where
  pub task_checked : task_check task ≡ true
  pub pairs_checked : all pair_check t.pairs ≡ true
  pub unique : distinct (screening_ids t.screening) ≡ true
  -- Before the decision nothing is selected and no pair exists.
  pub undecided :
      is_stage_screening task.stage ≡ true → (t.pairs ≡ []) × (selected_ids t.screening ≡ [])
  -- After it, the candidate inputs are those of the selected Creators.
  pub decided :
      is_stage_screening task.stage ≡ false
      → (is_some task.started_at ≡ true)
        × (is_empty (selected_ids t.screening) ≡ false)
        × (distinct (selected_ids t.screening) ≡ true)
        × (same_set (candidate_ids t.candidates) (selected_ids t.screening) ≡ true)
        × (task.total_units ≡ length (selected_ids t.screening) + 2)
  -- In the ranking stage every selected Creator has one valid brief.
  pub ranked :
      is_stage_ranking task.stage ≡ true
      → (same_set (pair_ids t.pairs) (selected_ids t.screening) ≡ true)
        × (all (valid_succeeded_record schema) t.pairs ≡ true)
  pub unpublished : is_status_succeeded task.status ≡ false → (t.results ≡ []) × (t.campaigns ≡ 0)
  -- A task succeeds with a complete publication, or with nothing selected.
  pub published :
      is_status_succeeded task.status ≡ true
      → (is_stage_pairwise task.stage ≡ false)
        × (is_stage_ranking task.stage ≡ true → is_published task t ≡ true)
        × (is_stage_screening task.stage ≡ true → (t.results ≡ []) × (t.campaigns ≡ 1))
  pub grouped : all (is_grouped_row task.recommended_match_threshold) t.results ≡ true

-- Of a table with no task there is nothing to say.
abbrev pub Consistent : BriefSchema → MatchTables → Type 0
Consistent schema t = (task : MatchTask) → t.task ≡ some task → IsConsistent schema task t
