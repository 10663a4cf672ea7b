-- ===== src/Match/Lifecycle/Invariant/Decision.antt =====
-- The screening decision and the invariant.
use find_me_gamer.Prelude.{ℕ, ◌≡◌, refl, true, ◌||◌, List, [], ◌∷◌, filter, length, arith}
use find_me_gamer.Prelude.Sets.{
  member, distinct, subset, same_set, same_set_symm, same_set_trans, same_set-filter,
  distinct-filter, length-eq_of_same_set,
}
use find_me_gamer.Match.Model.{
  Uuid, Timestamp, MatchTask, MatchTables, BriefSchema, is_status_running, is_status_queued,
  is_stage_screening, candidate_ids, screening_ids,
}
use find_me_gamer.Match.Screening.{
  ScreeningSchema, ScreeningSelection, selection_ids, decided_tables, decided_task,
}
use find_me_gamer.Match.Ranking.Inputs.{is_published}
use find_me_gamer.Match.Constraints.{task_check}
use find_me_gamer.Match.Lifecycle.Invariant.{IsConsistent}
use find_me_gamer.Match.Lifecycle.Invariant.Selection.{
  candidate_ids-filter, screening_ids-decide, selected_ids-decide,
}

subset_nil : (xs : List ℕ) → subset xs [] ≡ true → xs ≡ []
subset_nil [] h = refl
subset_nil (x ∷ xs) h = cc

-- What the decision leaves selected, as a set and in number.
record Chosen (keep selected candidates : List Uuid) : Type 0 where
  selects : same_set selected keep ≡ true
  unique : distinct selected ≡ true
  counts : length selected ≡ length keep
  holds : same_set candidates selected ≡ true

chosen :
    (keep known held : List Uuid)
    → distinct keep ≡ true
    → distinct known ≡ true
    → subset keep known ≡ true
    → subset keep held ≡ true
    → Chosen keep (filter (λ c. member c keep) known) (filter (λ c. member c keep) held)
chosen keep known held unique known_unique known_all held_all =
    let selects = same_set-filter keep known known_all in
    let selected_unique = distinct-filter keep known known_unique in
    record {
      selects = selects;
      unique = selected_unique;
      counts = length-eq_of_same_set _ keep selected_unique unique selects;
      holds =
          same_set_trans _ keep _ (same_set-filter keep held held_all)
            (same_set_symm _ keep selects);
    }

module _ (schema : BriefSchema) (screening_schema : ScreeningSchema) (t : MatchTables)
    (task : MatchTask) where
  pub decided-IsConsistent :
      (now : Timestamp) (selections : List ScreeningSelection)
      → is_stage_screening task.stage ≡ true
      → (is_status_queued task.status || is_status_running task.status) ≡ true
      → distinct (selection_ids selections) ≡ true
      → subset (selection_ids selections) (screening_ids t.screening) ≡ true
      → subset (selection_ids selections) (candidate_ids t.candidates) ≡ true
      → IsConsistent schema task t
      → IsConsistent schema
          (decided_task now (length (selection_ids selections)) task)
          (decided_tables screening_schema now selections task t)
  unfolding decided_tables task_check is_published
  decided-IsConsistent now selections stage_is live unique known held inv =
      let keep = selection_ids selections in
      let known_ids = screening_ids t.screening in
      let selected = filter (λ c. member c keep) known_ids in
      ground (
        arith,
        chosen keep known_ids (candidate_ids t.candidates) unique inv.unique known held,
        selected_ids-decide screening_schema selections t.screening,
        candidate_ids-filter keep t.candidates,
        screening_ids-decide screening_schema selections t.screening,
        subset_nil selected,
      )
