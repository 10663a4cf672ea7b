-- ===== src/Match/Lifecycle/Guarantees.antt =====
-- A Match task over whole runs of its workers: from its creation (backend/app/repositories/match.py),
-- and after its publication (backend/app/matching/ranking.py).
use find_me_gamer.Prelude.{ℕ, ◌≡◌, Option, some, List}
use find_me_gamer.Match.Retention.Purged.{Pointwise}
use find_me_gamer.Result.{ok}
use find_me_gamer.Match.Model.{
  Timestamp, MatchTask, MatchScreeningRecord, MatchCandidateInput, MatchTables,
}
use find_me_gamer.Match.Lifecycle.Invariant.{Consistent}
use find_me_gamer.Match.Creation.{CreatorProfile, GameProfile, CreationSchema, create_locked_task}
use find_me_gamer.Match.Lifecycle.Created.{
  Shuffles, create_locked_task-IsCreated, IsCreated-Consistent,
}
use find_me_gamer.Match.Lifecycle.Runs.{Environment, Run, Run-Consistent}

-- Later rows of a task, equal to the earlier ones but for the locked inputs.
pub record IsKept (task : MatchTask) (t u : MatchTables) : Type 0 where
  pub task_kept :
      (task' : MatchTask) × (u.task ≡ some task')
      × ((record task' { locked_game_brief = task.locked_game_brief }) ≡ task)
  pub screening_kept :
      Pointwise
        (λ (x y : MatchScreeningRecord).
          (record y { locked_creator_brief = x.locked_creator_brief }) ≡ x)
        t.screening
        u.screening
  pub candidates_kept :
      Pointwise
        (λ (x y : MatchCandidateInput).
          (record y {
            locked_creator_profile = x.locked_creator_profile;
            input_model_metadata = x.input_model_metadata;
            input_prompt_metadata = x.input_prompt_metadata;
          })
          ≡ x)
        t.candidates
        u.candidates
  pub pairs_kept : u.pairs ≡ t.pairs
  pub results_kept : u.results ≡ t.results
  pub campaigns_kept : u.campaigns ≡ t.campaigns

module _ (env : Environment) where
  -- After a Match task is created, at an aware time and with a shuffle that permutes, every state
  -- that its workers and the purge of expired inputs reach, in any order of their transactions and
  -- with any provider answers, satisfies the invariant.
  pub created-Run-Consistent :
      (creation : CreationSchema)
      → Shuffles creation
      → (now : Timestamp) (seed threshold : ℕ) (game : Option GameProfile)
        (creators : List CreatorProfile) (t u : MatchTables)
      → create_locked_task creation (some now) seed threshold game creators ≡ ok t
      → Run env t u
      → Consistent env.briefs u
  created-Run-Consistent creation shuffles now seed threshold game creators t u made reached =
      Run-Consistent env reached (
        IsCreated-Consistent env.briefs creation
          (create_locked_task-IsCreated creation shuffles now seed threshold game creators made))
