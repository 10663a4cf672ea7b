-- ===== src/Outreach/Model.antt =====
-- The tables of one Outreach campaign (backend/app/db/models/outreach.py).
--
-- The rows are those of one campaign, which is what every modelled query selects, directly or by an
-- identity that is unique in the table. A UUID is its integer; a digest is its hexadecimal text.
use find_me_gamer.Prelude.{ℕ, Bool, true, false, Option, List, String, map, filter, ◌==◌}
use find_me_gamer.Match.Model.{Uuid, Timestamp}

pub data SendBatchState : Type 0 where
  queued sending sent partially_failed failed : SendBatchState

pub data DeliverySendState : Type 0 where
  queued sending sent failed : DeliverySendState

pub data ResponseState : Type 0 where
  no_response accepted declined : ResponseState

-- What the e-mail says and to whom, fixed when the delivery is made.
pub record DeliveryContent : Type 0 where
  pub recipient_email : String
  pub rendered_subject : String
  pub rendered_markdown : String
  pub rendered_html : String
  pub template_name : String
  pub template_version : ℕ
  pub accepted_label : String
  pub declined_label : String
  pub sender_name : String
  pub sender_address : String
  pub reply_to : String

pub record Delivery : Type 0 where
  pub id : Uuid
  pub send_batch_id : Uuid
  pub creator_id : Uuid
  pub resends_delivery_id : Option Uuid
  pub content : DeliveryContent
  pub send_state : DeliverySendState
  pub response_state : ResponseState
  pub smtp_error_code : Option String
  pub smtp_error_message : Option String
  pub smtp_retryable : Bool
  pub response_token_digest : String
  pub sending_at : Option Timestamp
  pub sent_at : Option Timestamp
  pub failed_at : Option Timestamp
  pub responded_at : Option Timestamp
  pub superseded_at : Option Timestamp

pub record SendBatch : Type 0 where
  pub id : Uuid
  pub template_id : Option Uuid
  pub requested_creator_ids : List Uuid
  pub state : SendBatchState

pub record CampaignCreatorResponse : Type 0 where
  pub creator_id : Uuid
  pub state : ResponseState
  pub final_delivery_id : Option Uuid
  pub responded_at : Option Timestamp

-- The rows of one campaign. `has_campaign` tells whether the campaign's own row is there.
pub record OutreachTables : Type 0 where
  pub has_campaign : Bool
  pub batches : List SendBatch
  pub deliveries : List Delivery
  pub responses : List CampaignCreatorResponse

abbrev pub is_queued : DeliverySendState → Bool
is_queued DeliverySendState.queued = true
is_queued _ = false

abbrev pub is_sending : DeliverySendState → Bool
is_sending DeliverySendState.sending = true
is_sending _ = false

abbrev pub is_sent : DeliverySendState → Bool
is_sent DeliverySendState.sent = true
is_sent _ = false

abbrev pub is_failed : DeliverySendState → Bool
is_failed DeliverySendState.failed = true
is_failed _ = false

abbrev pub is_no_response : ResponseState → Bool
is_no_response no_response = true
is_no_response _ = false

-- `state in _FINAL_STATES`
abbrev pub is_final : ResponseState → Bool
is_final no_response = false
is_final _ = true

abbrev pub same_response : ResponseState → ResponseState → Bool
same_response no_response no_response = true
same_response accepted accepted = true
same_response declined declined = true
same_response _ _ = false

abbrev pub same_batch_state : SendBatchState → SendBatchState → Bool
same_batch_state SendBatchState.queued SendBatchState.queued = true
same_batch_state SendBatchState.sending SendBatchState.sending = true
same_batch_state SendBatchState.sent SendBatchState.sent = true
same_batch_state SendBatchState.partially_failed SendBatchState.partially_failed = true
same_batch_state SendBatchState.failed SendBatchState.failed = true
same_batch_state _ _ = false

abbrev pub has_id : Uuid → Delivery → Bool
has_id delivery_id row = row.id == delivery_id

abbrev pub delivery_ids : List Delivery → List Uuid
delivery_ids = map (λ (row : Delivery). row.id)

abbrev pub batch_ids : List SendBatch → List Uuid
batch_ids = map (λ (row : SendBatch). row.id)

-- The states that `_recompute_batch` reads.
abbrev pub states_of : Uuid → List Delivery → List DeliverySendState
states_of batch_id rows =
    map (λ (row : Delivery). row.send_state) (filter (λ row. row.send_batch_id == batch_id) rows)
