-- ===== src/Match/Lifecycle/Invariant/Selection.antt =====
-- What the screening decision makes of the identities of the rows.
use find_me_gamer.Prelude.{◌≡◌, refl, false, List, [], ◌∷◌, map, ◌==◌, is_some, filter, find, arith}
use find_me_gamer.Prelude.Sets.{member}
use find_me_gamer.Match.Model.{
  Uuid, MatchScreeningRecord, MatchCandidateInput, selected_ids, candidate_ids, screening_ids,
}
use find_me_gamer.Match.Screening.{ScreeningSchema, ScreeningSelection, selection_ids}
use find_me_gamer.Match.Screening.{decide}

pub candidate_ids-filter :
    (keep : List Uuid) (rows : List MatchCandidateInput)
    → candidate_ids (filter (λ (r : MatchCandidateInput). member r.creator_id keep) rows)
      ≡ filter (λ c. member c keep) (candidate_ids rows)
candidate_ids-filter keep [] = refl
candidate_ids-filter keep (row ∷ rows) = ground (arith, candidate_ids-filter keep rows)

find-member :
    (creator_id : Uuid) (selections : List ScreeningSelection)
    → is_some (find (λ (s : ScreeningSelection). s.creator_id == creator_id) selections)
      ≡ member creator_id (selection_ids selections)
find-member creator_id [] = refl
find-member creator_id (s ∷ rest) = ground (arith, find-member creator_id rest)

module _ (schema : ScreeningSchema) (selections : List ScreeningSelection) where
  decide-identity :
      (row : MatchScreeningRecord) → (decide schema selections row).creator_id ≡ row.creator_id
  unfolding decide
  decide-identity row = ground arith

  decide-selected :
      (row : MatchScreeningRecord)
      → row.selected ≡ false
      → (decide schema selections row).selected ≡ member row.creator_id (selection_ids selections)
  unfolding decide
  decide-selected row h = ground (arith, find-member row.creator_id selections)

  pub screening_ids-decide :
      (rows : List MatchScreeningRecord)
      → screening_ids (map (decide schema selections) rows) ≡ screening_ids rows
  screening_ids-decide [] = refl
  screening_ids-decide (row ∷ rows) = ground (arith, decide-identity row, screening_ids-decide rows)

  -- Of rows of which none was selected, the decision selects exactly the chosen Creators.
  pub selected_ids-decide :
      (rows : List MatchScreeningRecord)
      → selected_ids rows ≡ []
      → selected_ids (map (decide schema selections) rows)
        ≡ filter (λ c. member c (selection_ids selections)) (screening_ids rows)
  selected_ids-decide [] h = refl
  selected_ids-decide (row ∷ rows) h =
      ground (arith, decide-identity row, decide-selected row, selected_ids-decide rows)
