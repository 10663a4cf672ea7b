-- ===== src/Outreach/Invariant/Fresh.antt =====
-- The deliveries of a new batch beside those of the others (backend/app/outreach/batches.py).
use find_me_gamer.Prelude.{
  ℕ, suc, ◌≡◌, refl, Bool, true, false, ◌&&◌, Option, none, List, [], ◌∷◌, ◌++◌, ◌==◌, all, arith,
}
use find_me_gamer.Prelude.Sets.{member}
use find_me_gamer.Match.Model.{Uuid}
use find_me_gamer.Outreach.Model.{
  SendBatchState, DeliverySendState, Delivery, DeliveryContent, SendBatch, is_no_response,
  is_queued, batch_ids, states_of,
}
use find_me_gamer.Outreach.Constraints.{
  delivery_check, smtp_error_check, send_state_check, response_state_check,
}
use find_me_gamer.Outreach.Store.{batch_state}
use find_me_gamer.Outreach.Batches.{Generators, ComposedItem, new_delivery, new_deliveries}
use find_me_gamer.Outreach.Invariant.{is_expected, is_owned}

-- A delivery as `create_send_batch` and `resend_delivery` make it.
abbrev pub is_fresh : Uuid → Delivery → Bool
is_fresh batch_id row =
    delivery_check row
    && row.send_batch_id == batch_id
    && is_queued row.send_state
    && is_no_response row.response_state

pub new_delivery-is_fresh :
    (gen : Generators) (id creator_id : Uuid) (resends : Option Uuid) (content : DeliveryContent)
    → is_fresh gen.batch_id (new_delivery gen id creator_id resends content gen.batch_id) ≡ true
unfolding new_delivery delivery_check smtp_error_check send_state_check response_state_check
new_delivery-is_fresh gen id creator_id resends content = ground arith

pub new_deliveries-are_fresh :
    (gen : Generators) (n : ℕ) (items : List ComposedItem)
    → all (is_fresh gen.batch_id) (new_deliveries gen n items) ≡ true
unfolding new_deliveries
new_deliveries-are_fresh gen n [] = refl
new_deliveries-are_fresh gen n (item ∷ items) = ground (
  arith,
  new_delivery-is_fresh gen (gen.delivery_id n) item.creator_id none item.content,
  new_deliveries-are_fresh gen (suc n) items,
)

-- Rows of a new batch do not change the states of the others.
pub states_of-append :
    (new_id batch_id : Uuid) (rows news : List Delivery)
    → all (is_fresh new_id) news ≡ true
    → (new_id == batch_id) ≡ false
    → states_of batch_id (rows ++ news) ≡ states_of batch_id rows
states_of-append new_id batch_id [] [] fresh differs = refl
states_of-append new_id batch_id [] (x ∷ xs) fresh differs =
    ground (arith, states_of-append new_id batch_id [] xs)
states_of-append new_id batch_id (y ∷ ys) news fresh differs =
    ground (arith, states_of-append new_id batch_id ys news)

-- The new batch has its own rows alone, all of them queued.
pub all_queued :
    (new_id : Uuid) (batches : List SendBatch) (rows news : List Delivery)
    → member new_id (batch_ids batches) ≡ false
    → all (is_owned batches) rows ≡ true
    → all (is_fresh new_id) news ≡ true
    → all is_queued (states_of new_id (rows ++ news)) ≡ true
all_queued new_id batches [] [] unknown owned fresh = refl
all_queued new_id batches [] (x ∷ xs) unknown owned fresh =
    ground (arith, all_queued new_id batches [] xs)
all_queued new_id batches (y ∷ ys) news unknown owned fresh =
    ground (arith, all_queued new_id batches ys news)

pub queued_expected :
    (states : List DeliverySendState)
    → all is_queued states ≡ true
    → is_expected (batch_state states) SendBatchState.queued ≡ true
unfolding batch_state
queued_expected [] h = refl
queued_expected (s ∷ ss) h = ground arith

pub member-append_left : (a : ℕ) (xs ys : List ℕ) → member a xs ≡ true → member a (xs ++ ys) ≡ true
member-append_left a [] ys h = absurd (ground arith)
member-append_left a (x ∷ xs) ys h = ground (arith, member-append_left a xs ys)

pub owned-append :
    (batch : SendBatch) (batches : List SendBatch) (row : Delivery)
    → is_owned batches row ≡ true
    → is_owned (batches ++ (batch ∷ [])) row ≡ true
owned-append batch [] row h = absurd (ground arith)
owned-append batch (b ∷ bs) row h = ground (arith, owned-append batch bs row)

pub owned-new :
    (batch : SendBatch) (batches : List SendBatch) (row : Delivery)
    → (row.send_batch_id == batch.id) ≡ true
    → is_owned (batches ++ (batch ∷ [])) row ≡ true
owned-new batch [] row h = ground arith
owned-new batch (b ∷ bs) row h = ground (arith, owned-new batch bs row)
