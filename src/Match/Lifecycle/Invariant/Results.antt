-- ===== src/Match/Lifecycle/Invariant/Results.antt =====
-- The publication and the invariant.
use find_me_gamer.Prelude.{
  ℕ, ◌+◌, ◌≡◌, refl, true, false, some, List, [], ◌∷◌, ◌++◌, all, length, arith,
}
use find_me_gamer.Prelude.Sets.{same_set, length-eq_of_same_set}
use find_me_gamer.Result.{ok, Ensures, returned, Ensures-result, Ensures-bind}
use find_me_gamer.Match.Model.{
  Timestamp, MatchTask, MatchTables, PairwiseMatchBrief, MatchResultItem, BriefSchema,
  is_status_succeeded, is_stage_ranking, selected_ids, result_ids,
}
use find_me_gamer.Match.Ranking.Output.{PublicationItem}
use find_me_gamer.Match.Ranking.Inputs.{is_published}
use find_me_gamer.Match.Ranking.Publication.{
  result_items, publication_ids, flush_allowed, published_task,
}
use find_me_gamer.Match.Constraints.{task_check}
use find_me_gamer.Match.Lifecycle.Moves.{is_grouped}
use find_me_gamer.Match.Lifecycle.Invariant.{IsConsistent, is_grouped_row}
use find_me_gamer.Match.Ranking.Publication.{result_item}

-- The rows of a publication, against its items.
record Rows (threshold : ℕ) (items : List PublicationItem) (rows : List MatchResultItem)
    : Type 0 where
  same_ids : result_ids rows ≡ publication_ids items
  same_length : length rows ≡ length items
  ids_length : length (publication_ids items) ≡ length items
  same_groups : all (is_grouped threshold) items ≡ true → all (is_grouped_row threshold) rows ≡ true

result_item-same :
    (schema : BriefSchema) (briefs : List PairwiseMatchBrief) (item : PublicationItem)
    → Ensures
        (λ row.
          (row.creator_id ≡ item.ranking.creator_id)
          × (row.total_score ≡ item.total_score)
          × (row.result_group ≡ item.ranking.result_group))
        (result_item schema briefs item)
unfolding result_item
result_item-same schema briefs item =
    Ensures-bind _ _ λ brief _. Ensures-bind _ _ λ scores _. returned (refl, refl, refl)

Rows-cons :
    (threshold : ℕ) (item : PublicationItem) (rest : List PublicationItem) (row : MatchResultItem)
    (rows : List MatchResultItem)
    → (row.creator_id ≡ item.ranking.creator_id)
      × (row.total_score ≡ item.total_score)
      × (row.result_group ≡ item.ranking.result_group)
    → Rows threshold rest rows
    → Rows threshold (item ∷ rest) (row ∷ rows)
unfolding is_grouped is_grouped_row
Rows-cons threshold item rest row rows same later = ground arith

result_items-Rows :
    (schema : BriefSchema) (briefs : List PairwiseMatchBrief) (threshold : ℕ)
    (items : List PublicationItem)
    → Ensures (Rows threshold items) (result_items schema briefs items)
unfolding result_items
result_items-Rows schema briefs threshold [] = returned {a = []} (ground arith)
result_items-Rows schema briefs threshold (item ∷ rest) =
    Ensures-bind (result_item schema briefs item) _ λ row row_is.
      Ensures-bind {P = Rows threshold (item ∷ rest)} (result_items schema briefs rest) _
        λ rows rows_are. returned (
          Rows-cons threshold item rest row rows
            (Ensures-result (result_item-same schema briefs item) row_is)
            (Ensures-result (result_items-Rows schema briefs threshold rest) rows_are))

module _ (schema : BriefSchema) (t : MatchTables) (task : MatchTask) where
  pub published-IsConsistent :
      (now : Timestamp) (items : List PublicationItem) (briefs : List PairwiseMatchBrief)
      (rows : List MatchResultItem)
      → is_status_succeeded task.status ≡ false
      → is_stage_ranking task.stage ≡ true
      → same_set (publication_ids items) (selected_ids t.screening) ≡ true
      → all (is_grouped task.recommended_match_threshold) items ≡ true
      → result_items schema briefs items ≡ ok rows
      → flush_allowed (t.results ++ rows) (t.campaigns + 1) ≡ true
      → IsConsistent schema task t
      → let next = published_task now (length items) task in
        IsConsistent schema next
          (record t { task = some next; results = t.results ++ rows; campaigns = t.campaigns + 1 })
  unfolding published_task task_check is_published flush_allowed
  published-IsConsistent now items briefs rows unpublished stage_is complete grouped rows_are
        allowed inv =
      let facts =
        Ensures-result (result_items-Rows schema briefs task.recommended_match_threshold items)
          rows_are in
      ground (arith, length-eq_of_same_set (publication_ids items) (selected_ids t.screening))
