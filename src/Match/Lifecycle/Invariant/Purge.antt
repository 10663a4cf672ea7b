-- ===== src/Match/Lifecycle/Invariant/Purge.antt =====
-- The purge of the inputs of an expired task (backend/app/matching/retention.py) keeps the invariant.
use mathlib.Core.Path.{subst}
use find_me_gamer.Prelude.{
  ◌≡◌, refl, ap, Option, none, some, List, [], ◌∷◌, map, arith, inl, inr, Bool-cases,
}
use find_me_gamer.Match.Model.{
  Timestamp, MatchTask, MatchScreeningRecord, MatchCandidateInput, MatchTables, BriefSchema,
  selected_ids, screening_ids, candidate_ids,
}
use find_me_gamer.Match.Retention.{
  is_expired, cleared_task, cleared_screening, cleared_candidate, cleared, purge_task,
}
use find_me_gamer.Match.Ranking.Inputs.{is_published}
use find_me_gamer.Match.Constraints.{
  task_check, task_units_check, task_error_check, task_status_check,
}
use find_me_gamer.Match.Lifecycle.Invariant.{IsConsistent, Consistent}

screening_ids-cleared :
    (rows : List MatchScreeningRecord)
    → screening_ids (map cleared_screening rows) ≡ screening_ids rows
unfolding cleared_screening
screening_ids-cleared [] = refl
screening_ids-cleared (row ∷ rows) = ap (λ ids. row.creator_id ∷ ids) (screening_ids-cleared rows)

selected_ids-cleared :
    (rows : List MatchScreeningRecord)
    → selected_ids (map cleared_screening rows) ≡ selected_ids rows
unfolding cleared_screening
selected_ids-cleared [] = refl
selected_ids-cleared (row ∷ rows) = ground (arith, selected_ids-cleared rows)

candidate_ids-cleared :
    (rows : List MatchCandidateInput)
    → candidate_ids (map cleared_candidate rows) ≡ candidate_ids rows
unfolding cleared_candidate
candidate_ids-cleared [] = refl
candidate_ids-cleared (row ∷ rows) = ap (λ ids. row.creator_id ∷ ids) (candidate_ids-cleared rows)

module _ (schema : BriefSchema) where
  cleared-IsConsistent :
      (task : MatchTask) (t : MatchTables)
      → IsConsistent schema task t
      → IsConsistent schema (cleared_task task) (cleared task t)
  unfolding cleared cleared_task task_check task_units_check task_error_check task_status_check
      is_published
  cleared-IsConsistent task t inv = record {
    task_checked = inv.task_checked;
    pairs_checked = inv.pairs_checked;
    unique = rw (screening_ids-cleared t.screening) inv.unique;
    undecided = λ early. rw (selected_ids-cleared t.screening) (inv.undecided early);
    decided = λ late.
        rw (selected_ids-cleared t.screening, candidate_ids-cleared t.candidates)
          (inv.decided late);
    ranked = λ late. rw (selected_ids-cleared t.screening) (inv.ranked late);
    unpublished = inv.unpublished;
    published = λ done. rw (selected_ids-cleared t.screening) (inv.published done);
    grouped = inv.grouped;
  }

  purge_task-at :
      (now : Timestamp) (task : Option MatchTask) (t : MatchTables)
      → t.task ≡ task
      → Consistent schema t
      → Consistent schema (purge_task now task t).1
  unfolding purge_task
  purge_task-at now none t task_is inv = inv
  purge_task-at now (some task) t task_is inv = elim (Bool-cases (is_expired now task)) [
    | inl expired ↦ rw expired (λ next next_is.
        let kept = cleared-IsConsistent task t (inv task task_is) in
        subst (λ x. IsConsistent schema x (cleared task t)) (unfold cleared in cc) kept)
    | inr live ↦ rw live inv
  ]

  pub purge_task-Consistent :
      (now : Timestamp) (t : MatchTables)
      → Consistent schema t
      → Consistent schema (purge_task now t.task t).1
  purge_task-Consistent now t inv = purge_task-at now t.task t refl inv
