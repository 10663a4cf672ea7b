-- ===== src/Outreach/Invariant/Changes.antt =====
-- A change of one delivery of a campaign, with its batch recomputed (`_recompute_batch` of
-- backend/app/workers/outreach_tasks.py).
use mathlib.Core.Path.{subst}
use find_me_gamer.Prelude.{
  ◌≡◌, refl, sym, inl, inr, Bool, true, false, Option, none, some, List, [], ◌∷◌, map, ◌==◌, ==_iff,
  all, find, update, all-find, all-update, find-passes, arith, Bool-cases,
}
use find_me_gamer.Prelude.Sets.{member}
use find_me_gamer.Match.Model.{Uuid}
use find_me_gamer.Outreach.Model.{
  SendBatchState, DeliverySendState, Delivery, SendBatch, OutreachTables, has_id, batch_ids,
  states_of, same_batch_state,
}
use find_me_gamer.Outreach.Constraints.{delivery_check}
use find_me_gamer.Outreach.Store.{batch_state, recomputed, recompute_batch, change_delivery}
use find_me_gamer.Outreach.Batches.{current_creators}
use find_me_gamer.Outreach.Invariant.{IsConsistent, batch_agrees, is_owned, response_agrees}

module _ (f : Delivery → Delivery) (p : Delivery → Bool) where
  -- The states of the other batches.
  pub states_of-update :
      (batch_id : Uuid) (rows : List Delivery) {row : Delivery}
      → find p rows ≡ some row
      → (f row).send_batch_id ≡ row.send_batch_id
      → (row.send_batch_id == batch_id) ≡ false
      → states_of batch_id (update p f rows) ≡ states_of batch_id rows
  states_of-update batch_id [] found same other_batch = refl
  states_of-update batch_id (x ∷ xs) {row} found same other_batch =
      ground (arith, states_of-update batch_id xs {row = row})

  pub states_of-update_same :
      (batch_id : Uuid) (rows : List Delivery) {row : Delivery}
      → find p rows ≡ some row
      → (f row).send_batch_id ≡ row.send_batch_id
      → (f row).send_state ≡ row.send_state
      → states_of batch_id (update p f rows) ≡ states_of batch_id rows
  states_of-update_same batch_id [] found same same_state = refl
  states_of-update_same batch_id (x ∷ xs) {row} found same same_state =
      ground (arith, states_of-update_same batch_id xs {row = row})

  pub current_creators-update :
      (rows : List Delivery) {row : Delivery}
      → find p rows ≡ some row
      → (f row).creator_id ≡ row.creator_id
      → (f row).superseded_at ≡ row.superseded_at
      → current_creators (update p f rows) ≡ current_creators rows
  current_creators-update [] found same same_time = refl
  current_creators-update (x ∷ xs) {row} found same same_time =
      ground (arith, current_creators-update xs {row = row})

pub found_again :
    (id : Uuid) (rows : List Delivery) {row : Delivery}
    → find (has_id id) rows ≡ some row
    → find (has_id row.id) rows ≡ some row
found_again id rows {row} found =
    subst (λ i. find (has_id i) rows ≡ some row)
      (sym ((==_iff row.id id).0 (find-passes (has_id id) rows found))) found

same_batch_state_refl : (s : SendBatchState) → same_batch_state s s ≡ true
same_batch_state_refl SendBatchState.queued = refl
same_batch_state_refl SendBatchState.sending = refl
same_batch_state_refl SendBatchState.sent = refl
same_batch_state_refl SendBatchState.partially_failed = refl
same_batch_state_refl SendBatchState.failed = refl

pub batch_ids-recomputed :
    (batch_id : Uuid) (states : List DeliverySendState) (batches : List SendBatch)
    → batch_ids (map (recomputed batch_id states) batches) ≡ batch_ids batches
unfolding recomputed
batch_ids-recomputed batch_id states [] = refl
batch_ids-recomputed batch_id states (b ∷ bs) =
    ground (arith, batch_ids-recomputed batch_id states bs)

recomputed-all_owned :
    (batch_id : Uuid) (states : List DeliverySendState) (batches : List SendBatch)
    (rows : List Delivery)
    → all (is_owned batches) rows ≡ true
    → all (is_owned (map (recomputed batch_id states) batches)) rows ≡ true
recomputed-all_owned batch_id states batches rows owned =
    subst (λ ids. all (λ (row : Delivery). member row.send_batch_id ids) rows ≡ true)
      (sym (batch_ids-recomputed batch_id states batches)) owned

recomputed_same :
    (batch_id : Uuid) (news : List Delivery) (b : SendBatch) (state : Option SendBatchState)
    → batch_state (states_of batch_id news) ≡ state
    → b.id ≡ batch_id
    → batch_agrees news (recomputed batch_id (states_of batch_id news) b) ≡ true
unfolding recomputed
recomputed_same batch_id news b none state_is same = ground arith
recomputed_same batch_id news b (some s) state_is same = ground (arith, same_batch_state_refl s)

-- A batch after it was recomputed agrees with the new deliveries.
recomputed_agrees :
    (batch_id : Uuid) (rows news : List Delivery) (b : SendBatch)
    → ((other_id : Uuid)
        → (batch_id == other_id) ≡ false
        → states_of other_id news ≡ states_of other_id rows)
    → batch_agrees rows b ≡ true
    → batch_agrees news (recomputed batch_id (states_of batch_id news) b) ≡ true
unfolding recomputed batch_state
recomputed_agrees batch_id rows news b others agrees = elim (Bool-cases (b.id == batch_id)) [
  | inl same ↦
      recomputed_same batch_id news b (batch_state (states_of batch_id news)) refl
        ((==_iff b.id batch_id).0 same)
  | inr differs ↦ rw (differs, others b.id (ground arith)) agrees
]

pub recomputed-all_agree :
    (batch_id : Uuid) (rows news : List Delivery) (batches : List SendBatch)
    → ((other_id : Uuid)
        → (batch_id == other_id) ≡ false
        → states_of other_id news ≡ states_of other_id rows)
    → all (batch_agrees rows) batches ≡ true
    → all (batch_agrees news) (map (recomputed batch_id (states_of batch_id news)) batches) ≡ true
recomputed-all_agree batch_id rows news [] others agree = refl
recomputed-all_agree batch_id rows news (b ∷ bs) others agree = ground (
  arith,
  recomputed_agrees batch_id rows news b others,
  recomputed-all_agree batch_id rows news bs others,
)

-- A change that keeps what ties the delivery to its batch, its Creator and the answer.
pub change_delivery-IsConsistent :
    (f : Delivery → Delivery) (id : Uuid) (t : OutreachTables) (row : Delivery)
    → find (has_id id) t.deliveries ≡ some row
    → (f row).send_batch_id ≡ row.send_batch_id
    → (f row).creator_id ≡ row.creator_id
    → (f row).superseded_at ≡ row.superseded_at
    → (f row).response_state ≡ row.response_state
    → delivery_check (f row) ≡ true
    → IsConsistent t
    → IsConsistent (change_delivery row f t)
unfolding change_delivery recompute_batch
change_delivery-IsConsistent f id t row found same_batch same_creator same_time same_answer passes
      inv =
    let again : find (has_id row.id) t.deliveries ≡ some row = found_again id t.deliveries found in
    let news : List Delivery = update (has_id row.id) f t.deliveries in
    record {
      checked = all-update delivery_check (has_id row.id) f t.deliveries inv.checked again passes;
      agree =
          recomputed-all_agree row.send_batch_id t.deliveries news t.batches
            (λ other_id differs.
              states_of-update f (has_id row.id) other_id t.deliveries again same_batch differs)
            inv.agree;
      owned =
          recomputed-all_owned row.send_batch_id (states_of row.send_batch_id news) t.batches news (
            all-update (is_owned t.batches) (has_id row.id) f t.deliveries inv.owned again (
              rw same_batch
                (all-find (is_owned t.batches) (has_id row.id) t.deliveries inv.owned again)));
      current =
          rw (current_creators-update f (has_id row.id) t.deliveries again same_creator same_time)
            inv.current;
      answers =
          all-update (response_agrees t.responses) (has_id row.id) f t.deliveries inv.answers again
            (rw (same_answer, same_creator)
              (all-find (response_agrees t.responses) (has_id row.id) t.deliveries inv.answers
                again));
    }
