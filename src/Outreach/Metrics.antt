-- ===== src/Outreach/Metrics.antt =====
-- The metrics of a campaign (backend/app/outreach/metrics.py, and `_metric_rows` of
-- backend/app/api/routes/outreach.py).
--
-- The dictionary of Creators is its items in the order of insertion. A set of Creators is the test
-- that selects it among the dictionary's items, whose keys are distinct. The response rate is the
-- numerator and the denominator of the quotient, before the rounding of `Decimal`.
pub mod Unique
pub mod Balanced
use find_me_gamer.Prelude.{
  ℕ, ◌+◌, ◌-◌, Bool, true, false, not, ◌&&◌, ◌||◌, Option, none, some, List, [], ◌∷◌, map, ◌==◌,
  is_none, if◌then◌else◌, find, filter, any, count_if, is_empty,
}
use find_me_gamer.Result.{value_error, Result, ok, ◌>>=◌, ◌>>◌, raise_if}
use find_me_gamer.Match.Model.{Uuid}
use find_me_gamer.Outreach.Model.{
  DeliverySendState, ResponseState, no_response, accepted, declined, Delivery,
  CampaignCreatorResponse, is_queued, is_sending, is_sent, is_failed, same_response,
}
use find_me_gamer.Outreach.Responses.{of_creator}

pub record DeliveryProjection : Type 0 where
  pub creator_id : Uuid
  pub send_state : DeliverySendState
  pub response_state : ResponseState
  pub is_current : Bool

pub record CampaignMetrics : Type 0 where
  pub sent_creators : ℕ
  pub accepted : ℕ
  pub declined : ℕ
  pub no_response : ℕ
  pub failed : ℕ
  pub response_rate : ℕ × ℕ

-- An item of the dictionary; `responses` is the set that holds `accepted`, `declined`, or both.
pub record CreatorMetrics : Type 0 where
  pub creator_id : Uuid
  pub sent : Bool
  pub current_failed : Bool
  pub has_accepted : Bool
  pub has_declined : Bool

abbrev pub no_metrics : Uuid → CreatorMetrics
no_metrics creator_id = record {
  creator_id = creator_id;
  sent = false;
  current_failed = false;
  has_accepted = false;
  has_declined = false;
}

-- What one row adds to its Creator's item.
unfoldable pub note_row : DeliveryProjection → CreatorMetrics → CreatorMetrics
note_row row creator = record creator {
  sent = creator.sent || is_sent row.send_state;
  current_failed = creator.current_failed || (row.is_current && is_failed row.send_state);
  has_accepted = creator.has_accepted || same_response row.response_state accepted;
  has_declined = creator.has_declined || same_response row.response_state declined;
}

-- `creators.setdefault(...)` and the changes that follow it.
unfoldable pub add_row : DeliveryProjection → List CreatorMetrics → List CreatorMetrics
unfolding note_row
add_row row [] = note_row row (no_metrics row.creator_id) ∷ []
add_row row (creator ∷ creators) =
    if creator.creator_id == row.creator_id
    then note_row row creator ∷ creators
    else creator ∷ add_row row creators

unfoldable pub add_rows : List DeliveryProjection → List CreatorMetrics → List CreatorMetrics
unfolding add_row
add_rows [] creators = creators
add_rows (row ∷ rows) creators = add_rows rows (add_row row creators)

abbrev pub in_sent : CreatorMetrics → Bool
in_sent creator = creator.sent

abbrev pub in_accepted : CreatorMetrics → Bool
in_accepted creator = creator.sent && creator.has_accepted

abbrev pub in_declined : CreatorMetrics → Bool
in_declined creator = creator.sent && creator.has_declined

abbrev pub in_failed : CreatorMetrics → Bool
in_failed creator =
    creator.current_failed && not creator.sent && not (creator.has_accepted || creator.has_declined)

-- `accepted & declined`
abbrev pub in_conflict : CreatorMetrics → Bool
in_conflict creator = in_accepted creator && in_declined creator

abbrev pub responded : List CreatorMetrics → ℕ
responded creators = count_if in_accepted creators + count_if in_declined creators

unfoldable pub metrics_of : List CreatorMetrics → CampaignMetrics
metrics_of creators = record {
  sent_creators = count_if in_sent creators;
  accepted = count_if in_accepted creators;
  declined = count_if in_declined creators;
  no_response = count_if in_sent creators - responded creators;
  failed = count_if in_failed creators;
  response_rate =
      if count_if in_sent creators == 0
      then (0, 1)
      else (responded creators, count_if in_sent creators);
}

unfoldable pub calculate_campaign_metrics : List DeliveryProjection → Result CampaignMetrics
unfolding add_rows metrics_of
calculate_campaign_metrics rows = do
  raise_if (any in_conflict (add_rows rows [])) value_error
  ok (metrics_of (add_rows rows []))

pub data CampaignState : Type 0 where
  not_started queued sending completed failed : CampaignState

unfoldable pub derive_campaign_state : List DeliveryProjection → CampaignState
derive_campaign_state rows =
    if is_empty rows
    then CampaignState.not_started
    else if any (λ (row : DeliveryProjection). row.is_current && is_sending row.send_state) rows
    then CampaignState.sending
    else if any (λ (row : DeliveryProjection). row.is_current && is_queued row.send_state) rows
    then CampaignState.queued
    else if any (λ (row : DeliveryProjection). is_sent row.send_state) rows
    then CampaignState.completed
    else if any (λ (row : DeliveryProjection). row.is_current && is_failed row.send_state) rows
    then CampaignState.failed
    else CampaignState.not_started

abbrev pub state_or_none : Option CampaignCreatorResponse → ResponseState
state_or_none none = no_response
state_or_none (some row) = row.state

-- `final_states.get(creator_id, "no_response")`; a campaign has one response row for each Creator.
unfoldable pub final_state : List CampaignCreatorResponse → Uuid → ResponseState
final_state responses creator_id = state_or_none (find (of_creator creator_id) responses)

-- `_metric_rows`
unfoldable pub metric_rows : List Delivery → List CampaignCreatorResponse → List DeliveryProjection
unfolding final_state
metric_rows deliveries responses =
    map
      (λ (row : Delivery). record {
        creator_id = row.creator_id;
        send_state = row.send_state;
        response_state = final_state responses row.creator_id;
        is_current = is_none row.superseded_at;
      })
      deliveries
