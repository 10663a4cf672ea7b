-- ===== src/Match/Lifecycle/Runs.antt =====
-- Runs of a Match task: every interleaving of the transactions of its workers and of the purge.
use mathlib.Core.Path.{subst}
use find_me_gamer.Prelude.{ℕ, ◌≡◌, refl, Bool, true, Option, some, List, all}
use find_me_gamer.Result.{ok, Ensures-result}
use find_me_gamer.Match.Model.{
  Timestamp, Uuid, Clock, MatchTask, MatchTables, PairwiseMatchBrief, BriefSchema,
}
use find_me_gamer.Match.Pairwise.Claim.{LockedInputSchema, LockedPairwiseInput, claim}
use find_me_gamer.Match.Pairwise.Apply.{apply_success}
use find_me_gamer.Match.Screening.{
  ScreeningSchema, ScreeningSelection, LockedScreeningInput, load_locked_screening_input,
  apply_screening_output, decided_tables,
}
use find_me_gamer.Match.Worker.Codes.{PairwiseTerminalFailure}
use find_me_gamer.Match.Worker.Fail.{fail_pair, fail_task}
use find_me_gamer.Match.Worker.Prepare.{prepare}
use find_me_gamer.Match.Worker.Enqueue.{mark_ranking_enqueued, compensate_ranking_enqueue}
use find_me_gamer.Match.Ranking.Output.{RankingItem, TextRules, PublicationItem, validated_output}
use find_me_gamer.Match.Ranking.Publication.{publish}
use find_me_gamer.Match.Lifecycle.Moves.{
  Move, stay, start_screening, decide_screening, prepare_pairs, claim_pair, succeed_pair, fail_one,
  fail_settled, fail_whole, enqueue_ranking, compensate, publish_results, is_grouped,
}
use find_me_gamer.Match.Lifecycle.Invariant.{IsConsistent, Consistent}
use find_me_gamer.Match.Lifecycle.Invariant.Task.{
  started-IsConsistent, failed-IsConsistent, enqueued-IsConsistent, compensated-IsConsistent,
}
use find_me_gamer.Match.Retention.{purge_task}
use find_me_gamer.Match.Lifecycle.Invariant.Purge.{purge_task-Consistent}
use find_me_gamer.Match.Lifecycle.Invariant.Decision.{decided-IsConsistent}
use find_me_gamer.Match.Lifecycle.Invariant.Pairs.{
  prepared-IsConsistent, claimed-IsConsistent, succeeded-IsConsistent, failed_one-IsConsistent,
  failed_settled-IsConsistent,
}
use find_me_gamer.Match.Lifecycle.Invariant.Results.{published-IsConsistent}
use find_me_gamer.Match.Lifecycle.Refinement.Screening.{load_screening-Moves, apply_screening-Moves}
use find_me_gamer.Match.Lifecycle.Refinement.Pairwise.{claim-Moves, apply_success-Moves}
use find_me_gamer.Match.Lifecycle.Refinement.Worker.{
  prepare-Moves, fail_pair-Moves, fail_task-Moves, mark_ranking_enqueued-Moves,
  compensate_ranking_enqueue-Moves,
}
use find_me_gamer.Match.Lifecycle.Refinement.Ranking.{publish-Moves, validated_output-grouped}

pub of_task :
    (schema : BriefSchema) (u : MatchTables) (next : MatchTask)
    → u.task ≡ some next
    → IsConsistent schema next u
    → Consistent schema u
of_task schema u next u_is inv task task_is = subst (λ x. IsConsistent schema x u) (cc) inv

module _ (schema : BriefSchema) (screening_schema : ScreeningSchema) where
  pub Move-Consistent :
      {t u : MatchTables}
      → Move schema screening_schema t u
      → Consistent schema t
      → Consistent schema u
  Move-Consistent (stay t) inv = inv
  Move-Consistent (start_screening t task now task_is stage_is queued) inv =
      of_task schema _ _ refl
        (started-IsConsistent schema t task now stage_is queued (inv task task_is))
  Move-Consistent (decide_screening t task now selections task_is stage_is live unique known held)
        inv =
      unfold decided_tables in
      of_task schema _ _ refl (
        decided-IsConsistent schema screening_schema t task now selections stage_is live unique
          known held (inv task task_is))
  Move-Consistent (prepare_pairs t task now task_is running stage_is) inv =
      of_task schema _ _ task_is
        (prepared-IsConsistent schema t task now running stage_is (inv task task_is))
  Move-Consistent (claim_pair t task now creator_id row task_is found running stage_is unfinished)
        inv =
      of_task schema _ _ task_is (
        claimed-IsConsistent schema t task now creator_id row found running stage_is
          (inv task task_is))
  Move-Consistent
        (succeed_pair t task failed now creator_id row brief matches sibling task_is found live
          stage_is open_row same recomputed)
        inv =
      of_task schema _ _ refl (
        succeeded-IsConsistent schema t task failed now creator_id row brief matches sibling found
          live stage_is open_row recomputed (inv task task_is))
  Move-Consistent
        (fail_one t task failed now creator_id row failure changed task_is found unfinished
          open_task recomputed)
        inv =
      of_task schema _ _ refl (
        failed_one-IsConsistent schema t task failed now creator_id row failure changed found
          unfinished open_task recomputed (inv task task_is))
  Move-Consistent (fail_settled t task now creator_id row failure task_is found unfinished settled)
        inv =
      of_task schema _ _ task_is (
        failed_settled-IsConsistent schema t task now creator_id row failure found unfinished
          (inv task task_is))
  Move-Consistent (fail_whole t task now failure task_is live) inv =
      of_task schema _ _ refl
        (failed-IsConsistent schema t task now failure live (inv task task_is))
  Move-Consistent (enqueue_ranking t task now task_is running stage_is ready) inv =
      of_task schema _ _ refl
        (enqueued-IsConsistent schema t task now running stage_is ready (inv task task_is))
  Move-Consistent (compensate t task now task_is running stage_is) inv =
      of_task schema _ _ refl
        (compensated-IsConsistent schema t task now running stage_is (inv task task_is))
  Move-Consistent
        (publish_results t task now items briefs rows task_is unpublished stage_is complete grouped
          rows_are allowed)
        inv =
      of_task schema _ _ refl (
        published-IsConsistent schema t task now items briefs rows unpublished stage_is complete
          grouped rows_are allowed (inv task task_is))

-- What the workers of a task share: the schemas and the text rules.
pub record Environment : Type 0 where
  pub briefs : BriefSchema
  pub screening : ScreeningSchema
  pub locked : LockedInputSchema
  pub rules : TextRules

-- One committed transaction. The provider's answers, the clocks and the failures are any at all, and
-- between the transactions of one worker those of the others may stand. A publication holds a
-- validated ranking output, whose expected Creators were read before.
pub data Step (env : Environment) : MatchTables → MatchTables → Type 0 where
  screening_loaded :
      {t u : MatchTables} (clock : Clock) (locked : LockedScreeningInput)
      → load_locked_screening_input env.screening clock t ≡ ok (locked, u)
      → Step env t u
  screening_applied :
      {t u : MatchTables} (clock : Clock) (selections : List ScreeningSelection) (ids : List Uuid)
      → apply_screening_output env.screening clock selections t ≡ ok (ids, u)
      → Step env t u
  prepared :
      {t u : MatchTables} (clock : Clock) (task_id : Uuid) (creators ids : List Uuid)
      → prepare env.briefs clock task_id creators t ≡ ok (ids, u)
      → Step env t u
  claimed :
      {t u : MatchTables} (clock : Clock) (task_id creator_id : Uuid) (input : LockedPairwiseInput)
      → claim env.briefs env.locked clock task_id creator_id t ≡ ok (input, u)
      → Step env t u
  pair_applied :
      {t u : MatchTables} (clock : Clock) (task_id creator_id : Uuid)
      (brief stored : PairwiseMatchBrief)
      → apply_success env.briefs clock task_id creator_id brief t ≡ ok (stored, u)
      → Step env t u
  pair_failed :
      {t u : MatchTables} (clock : Clock) (task_id creator_id : Uuid)
      (failure : PairwiseTerminalFailure) (changed : Bool)
      → fail_pair clock task_id creator_id failure t ≡ ok (changed, u)
      → Step env t u
  task_failed :
      {t u : MatchTables} (clock : Clock) (task_id : Uuid) (failure : PairwiseTerminalFailure)
      (changed : Bool)
      → fail_task clock task_id failure t ≡ ok (changed, u)
      → Step env t u
  ranking_marked :
      {t u : MatchTables} (clock : Clock) (task_id : Uuid) (changed : Bool)
      → mark_ranking_enqueued env.briefs clock task_id t ≡ ok (changed, u)
      → Step env t u
  ranking_compensated :
      {t u : MatchTables} (clock : Clock) (task_id : Uuid) (changed : Bool)
      → compensate_ranking_enqueue clock task_id t ≡ ok (changed, u)
      → Step env t u
  ranking_published :
      {t u : MatchTables} (clock : Clock) (task_id : Uuid) (task : MatchTask)
      (raw : Option (List RankingItem)) (expected : List Uuid) (items : List PublicationItem)
      (count : ℕ)
      → t.task ≡ some task
      → validated_output env.rules raw expected task.recommended_match_threshold ≡ ok items
      → publish env.briefs clock task_id items t ≡ ok (count, u)
      → Step env t u

-- Between the workers' transactions the purge of expired inputs may run, at any time.
pub data Run (env : Environment) (t : MatchTables) : MatchTables → Type 0 where
  here : Run env t t
  next : {u v : MatchTables} → Run env t u → Step env u v → Run env t v
  swept : {u : MatchTables} (now : Timestamp) → Run env t u → Run env t (purge_task now u.task u).1

module _ (env : Environment) where
  abbrev MoveOf : MatchTables → MatchTables → Type 0
  MoveOf = Move env.briefs env.screening

  -- A committed transaction makes a move of the relation.
  pub Step-Move : {t u : MatchTables} → Step env t u → MoveOf t u
  Step-Move {t} (screening_loaded clock locked e) =
      Ensures-result (load_screening-Moves env.briefs env.screening clock t) e
  Step-Move {t} (screening_applied clock selections ids e) =
      Ensures-result (apply_screening-Moves env.briefs env.screening clock selections t) e
  Step-Move {t} (prepared clock task_id creators ids e) =
      Ensures-result (prepare-Moves env.briefs env.screening clock task_id creators t) e
  Step-Move {t} (claimed clock task_id creator_id input e) =
      Ensures-result (claim-Moves env.briefs env.screening env.locked clock task_id creator_id t) e
  Step-Move {t} (pair_applied clock task_id creator_id brief stored e) =
      Ensures-result (apply_success-Moves env.briefs env.screening clock task_id creator_id brief t)
        e
  Step-Move {t} (pair_failed clock task_id creator_id failure changed e) =
      Ensures-result (fail_pair-Moves env.briefs env.screening clock task_id creator_id failure t) e
  Step-Move {t} (task_failed clock task_id failure changed e) =
      Ensures-result (fail_task-Moves env.briefs env.screening clock task_id failure t) e
  Step-Move {t} (ranking_marked clock task_id changed e) =
      Ensures-result (mark_ranking_enqueued-Moves env.briefs env.screening clock task_id t) e
  Step-Move {t} (ranking_compensated clock task_id changed e) =
      Ensures-result (compensate_ranking_enqueue-Moves env.briefs env.screening clock task_id t) e
  Step-Move {t} (ranking_published clock task_id task raw expected items count task_is valid e) =
      Ensures-result
        (publish-Moves env.briefs env.screening clock task_id items t (λ found found_is.
          subst (λ (x : MatchTask). all (is_grouped x.recommended_match_threshold) items ≡ true)
            {x = task} {y = found} (cc)
            (Ensures-result
              (validated_output-grouped env.rules raw expected task.recommended_match_threshold)
              valid)))
        e

  pub Run-Consistent :
      {t u : MatchTables} → Run env t u → Consistent env.briefs t → Consistent env.briefs u
  Run-Consistent here inv = inv
  Run-Consistent (next run step) inv =
      Move-Consistent env.briefs env.screening (Step-Move step) (Run-Consistent run inv)
  Run-Consistent (swept {u} now run) inv =
      purge_task-Consistent env.briefs now u (Run-Consistent run inv)
