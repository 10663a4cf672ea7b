-- ===== src/Outreach/Invariant.antt =====
-- What holds of the tables of a campaign between transactions (backend/app/db/models/outreach.py and
-- the code that changes its rows).
pub mod Changes
pub mod Sending
pub mod Answers
pub mod Fresh
pub mod Batches
pub mod Resend
pub mod Runs
use find_me_gamer.Prelude.{◌≡◌, Bool, true, false, ◌||◌, Option, none, some, List, ◌==◌, all, find}
use find_me_gamer.Prelude.Sets.{member, distinct}
use find_me_gamer.Outreach.Model.{
  SendBatchState, Delivery, SendBatch, CampaignCreatorResponse, ResponseState, OutreachTables,
  is_no_response, same_response, same_batch_state, batch_ids, states_of,
}
use find_me_gamer.Outreach.Constraints.{delivery_check}
use find_me_gamer.Outreach.Store.{batch_state}
use find_me_gamer.Outreach.Responses.{of_creator}
use find_me_gamer.Outreach.Batches.{current_creators}

abbrev pub is_expected : Option SendBatchState → SendBatchState → Bool
is_expected none state = true
is_expected (some expected) state = same_batch_state state expected

-- The batch has the state that `_recompute_batch` finds for it.
abbrev pub batch_agrees : List Delivery → SendBatch → Bool
unfolding batch_state
batch_agrees rows batch = is_expected (batch_state (states_of batch.id rows)) batch.state

abbrev pub has_answer : ResponseState → Option CampaignCreatorResponse → Bool
has_answer answer none = false
has_answer answer (some row) = same_response row.state answer

-- An answered delivery agrees with its Creator's response.
abbrev pub response_agrees : List CampaignCreatorResponse → Delivery → Bool
response_agrees responses row =
    is_no_response row.response_state
    || has_answer row.response_state (find (of_creator row.creator_id) responses)

abbrev pub is_owned : List SendBatch → Delivery → Bool
is_owned batches row = member row.send_batch_id (batch_ids batches)

pub record IsConsistent (t : OutreachTables) : Type 0 where
  pub checked : all delivery_check t.deliveries ≡ true
  pub agree : all (batch_agrees t.deliveries) t.batches ≡ true
  pub owned : all (is_owned t.batches) t.deliveries ≡ true
  pub current : distinct (current_creators t.deliveries) ≡ true
  pub answers : all (response_agrees t.responses) t.deliveries ≡ true
