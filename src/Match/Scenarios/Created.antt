-- ===== src/Match/Scenarios/Created.antt =====
-- A task that was created, and the screening decision on it.
use find_me_gamer.Prelude.{◌-◌, ◌≡◌, refl, some, List, [], ◌∷◌}
use find_me_gamer.Result.{ok, ◌>>=◌, raise_if, require}
use find_me_gamer.Match.Model.{MatchTables}
use find_me_gamer.Match.Screening.{ScreeningSelection, apply_screening_output, decided_tables}
use find_me_gamer.Match.Creation.{eligible_creators, eligible_ids, match_input_retention}
use find_me_gamer.Match.Lifecycle.Invariant.{Consistent}
use find_me_gamer.Match.Lifecycle.Created.{IsCreated, create_locked_task-IsCreated}
use find_me_gamer.Match.Lifecycle.Runs.{here, next, screening_applied}
use find_me_gamer.Match.Lifecycle.Guarantees.{created-Run-Consistent}
use find_me_gamer.Match.Scenarios.{
  briefs, screening_schema, env, creation, creators, game, new_tables, task_of, created_new,
  creation-Shuffles,
}

create_locked_task-IsCreated_example :
    IsCreated creation
      (eligible_ids creation
        (eligible_creators creation (2592000001000 - match_input_retention) creators))
      new_tables
create_locked_task-IsCreated_example =
    create_locked_task-IsCreated creation creation-Shuffles 2592000001000 7 7500 game creators
      {t = new_tables} created_new

abbrev selections : List ScreeningSelection
selections = record { creator_id = 1; screening_reason = "fits"; evidence = [] } ∷ []

abbrev decided_new : MatchTables
decided_new =
    decided_tables screening_schema 2592000002000 selections (task_of new_tables) new_tables

decision_made :
    apply_screening_output screening_schema (some 2592000002000) selections new_tables
    ≡ ok (1 ∷ [], decided_new)
unfolding apply_screening_output ◌>>=◌ raise_if require
decision_made = refl

created-Run-Consistent_example : Consistent briefs decided_new
created-Run-Consistent_example =
    created-Run-Consistent env creation creation-Shuffles 2592000001000 7 7500 game creators
      new_tables decided_new created_new
      (next here (screening_applied (some 2592000002000) selections (1 ∷ []) decision_made))
