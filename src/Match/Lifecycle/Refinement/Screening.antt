-- ===== src/Match/Lifecycle/Refinement/Screening.antt =====
-- The screening operations of backend/app/repositories/match.py against the moves of a Match task.
use mathlib.Core.Path.{subst}
use find_me_gamer.Prelude.{
  ◌≡◌, sym, ap, ◌∙◌, ◌⊎◌, inl, inr, true, not, ◌||◌, none, some, List, arith, Bool-cases,
}
use find_me_gamer.Result.{
  ok, ◌>>=◌, require, returned, Ensures-raise_if, Ensures-if, Ensures-require, Ensures-bind,
}
use find_me_gamer.Match.Model.{
  Timestamp, Clock, MatchTask, MatchTables, BriefSchema, is_status_queued, is_status_succeeded,
  is_stage_screening,
}
use find_me_gamer.Match.Screening.{
  ScreeningSchema, ScreeningSelection, load_locked_screening_input, apply_screening_output,
  running_task, started,
}
use find_me_gamer.Match.Lifecycle.Moves.{Move, stay, start_screening, decide_screening}
use find_me_gamer.Match.Lifecycle.Refinement.{Moves}

-- A queued task starts at the clock's time; a running one stays.
started_cases :
    (clock : Clock) (task running : MatchTask)
    → started clock task ≡ ok running
    → (running ≡ task)
      ⊎ ((now : Timestamp) × (is_status_queued task.status ≡ true)
          × (running ≡ running_task now task))
unfolding started ◌>>=◌ require
started_cases none task running h = inl (ground arith)
started_cases (some now) task running h = elim (Bool-cases (is_status_queued task.status)) [
  | inl queued ↦ inr (now, queued, ground arith)
  | inr other_status ↦ inl (ground arith)
]

module _ (schema : BriefSchema) (screening_schema : ScreeningSchema) where
  started-Moves :
      (clock : Clock) (task running : MatchTask) (t : MatchTables)
      → t.task ≡ some task
      → is_stage_screening task.stage ≡ true
      → started clock task ≡ ok running
      → Move schema screening_schema t (record t { task = some running })
  started-Moves clock task running t task_is stage_is done =
      elim (started_cases clock task running done) [
        | inl same ↦
            subst (λ o. Move schema screening_schema t (record t { task = o }))
              (task_is ∙ ap some (sym same)) (stay t)
        | inr (now, queued, begun) ↦
            subst (λ r. Move schema screening_schema t (record t { task = some r })) (sym begun)
              (start_screening t task now task_is stage_is queued)
      ]

  pub load_screening-Moves :
      (clock : Clock) (t : MatchTables)
      → Moves schema screening_schema t (load_locked_screening_input screening_schema clock t)
  unfolding load_locked_screening_input
  load_screening-Moves clock t = Ensures-require _ _ _ λ task task_is. Ensures-raise_if _ _ _ λ _.
      Ensures-if (not (is_stage_screening task.stage) || is_status_succeeded task.status) _ _
        (λ _. Ensures-bind _ _ λ _ _. Ensures-bind _ _ λ _ _. returned (stay t))
        (λ open_stage. Ensures-raise_if _ _ _ λ _. Ensures-raise_if _ _ _ λ _.
          Ensures-bind _ _ λ _ _. Ensures-bind _ _ λ running running_is. Ensures-bind _ _ λ _ _.
            Ensures-bind _ _ λ _ _.
              returned (started-Moves clock task running t task_is (ground arith) running_is))

  pub apply_screening-Moves :
      (clock : Clock) (selections : List ScreeningSelection) (t : MatchTables)
      → Moves schema screening_schema t (apply_screening_output screening_schema clock selections t)
  unfolding apply_screening_output
  apply_screening-Moves clock selections t = Ensures-raise_if _ _ _ λ _.
      Ensures-raise_if _ _ _ λ unique. Ensures-require _ _ _ λ task task_is.
        Ensures-if (not (is_stage_screening task.stage) || is_status_succeeded task.status) _ _
          (λ _. returned (stay t))
          (λ open_stage. Ensures-raise_if _ _ _ λ screenable. Ensures-raise_if _ _ _ λ known.
            Ensures-raise_if _ _ _ λ held. Ensures-bind _ _ λ now _. returned (
              decide_screening t task now selections task_is (ground arith) (ground arith)
                (ground arith) (ground arith) (ground arith)))
