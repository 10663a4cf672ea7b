-- ===== src/Outreach/Batches.antt =====
-- The making of deliveries (`create_send_batch` and `resend_delivery` of
-- backend/app/outreach/batches.py).
--
-- What `_load_composition` returns is an argument; so are the identities that `uuid4` and the
-- database generate, the derivation of a response token and the digest of a token.
use find_me_gamer.Prelude.{
  ℕ, suc, Bool, false, not, ◌&&◌, ◌||◌, Option, none, some, List, [], ◌∷◌, ◌++◌, String, map, ◌==◌,
  is_none, if◌then◌else◌, find, filter, any, update,
}
use find_me_gamer.Prelude.Sets.{member, distinct}
use find_me_gamer.Result.{
  api_error, integrity_error, Result, ok, err, ◌>>=◌, ◌>>◌, raise_if, require,
}
use find_me_gamer.Match.Model.{Uuid, Timestamp}
use find_me_gamer.Outreach.Model.{
  SendBatchState, DeliverySendState, no_response, DeliveryContent, Delivery, SendBatch,
  CampaignCreatorResponse, OutreachTables, is_sent, is_failed, is_no_response, is_final, has_id,
}
use find_me_gamer.Outreach.Responses.{of_creator}

pub record ComposedItem : Type 0 where
  pub creator_id : Uuid
  pub content : DeliveryContent

pub record Composition : Type 0 where
  pub template_id : Option Uuid
  pub items : List ComposedItem

-- What generates identities and tokens.
pub record Generators : Type 0 where
  pub batch_id : Uuid
  pub delivery_id : ℕ → Uuid
  pub derive_outreach_response_token : Uuid → String
  pub response_token_digest : String → String

-- What `_project_batch` answers.
pub record SendBatchResponse : Type 0 where
  pub id : Uuid
  pub template_id : Option Uuid
  pub requested_creator_ids : List Uuid
  pub deliveries : List Delivery

abbrev pub is_current : Delivery → Bool
is_current row = is_none row.superseded_at

-- uq_deliveries_current_campaign_creator
abbrev pub current_creators : List Delivery → List Uuid
current_creators rows = map (λ (row : Delivery). row.creator_id) (filter is_current rows)

-- `session.flush()` under that index.
unfoldable pub flush : OutreachTables → Result OutreachTables
flush t = if distinct (current_creators t.deliveries) then ok t else err integrity_error

unfoldable pub new_delivery :
    Generators → Uuid → Uuid → Option Uuid → DeliveryContent → Uuid → Delivery
new_delivery gen id creator_id resends content batch_id = record {
  id = id;
  send_batch_id = batch_id;
  creator_id = creator_id;
  resends_delivery_id = resends;
  content = content;
  send_state = DeliverySendState.queued;
  response_state = no_response;
  smtp_error_code = none;
  smtp_error_message = none;
  smtp_retryable = false;
  response_token_digest = gen.response_token_digest (gen.derive_outreach_response_token id);
  sending_at = none;
  sent_at = none;
  failed_at = none;
  responded_at = none;
  superseded_at = none;
}

-- The loop over the composition's items, from the n-th generated identity on.
unfoldable pub new_deliveries : Generators → ℕ → List ComposedItem → List Delivery
unfolding new_delivery
new_deliveries gen n [] = []
new_deliveries gen n (item ∷ items) =
    new_delivery gen (gen.delivery_id n) item.creator_id none item.content gen.batch_id
    ∷ new_deliveries gen (suc n) items

unfoldable pub new_batch : Generators → Option Uuid → List Uuid → SendBatch
new_batch gen template_id creator_ids = record {
  id = gen.batch_id;
  template_id = template_id;
  requested_creator_ids = creator_ids;
  state = SendBatchState.queued;
}

unfoldable pub project_batch : SendBatch → List Delivery → SendBatchResponse
project_batch batch rows = record {
  id = batch.id;
  template_id = batch.template_id;
  requested_creator_ids = batch.requested_creator_ids;
  deliveries = rows;
}

unfoldable pub has_prior : List Uuid → OutreachTables → Bool
has_prior creator_ids t = any (λ (row : Delivery). member row.creator_id creator_ids) t.deliveries

unfoldable pub has_confirmed : List Uuid → OutreachTables → Bool
has_confirmed creator_ids t =
    any (λ (row : CampaignCreatorResponse). member row.creator_id creator_ids && is_final row.state)
      t.responses

-- A batch and its deliveries, added.
abbrev pub add_batch : SendBatch → List Delivery → OutreachTables → OutreachTables
add_batch batch rows t = record t {
  batches = t.batches ++ (batch ∷ []);
  deliveries = t.deliveries ++ rows;
}

unfoldable pub create_send_batch :
    Generators
    → Composition
    → List Uuid
    → OutreachTables
    → Result (SendBatchResponse × OutreachTables)
unfolding has_prior has_confirmed new_batch new_deliveries flush project_batch
create_send_batch gen composition creator_ids t = do
  raise_if (has_prior creator_ids t || has_confirmed creator_ids t)
      (api_error "explicit_resend_required")
  t' ← flush (
      add_batch (new_batch gen composition.template_id creator_ids)
        (new_deliveries gen 0 composition.items) t)
  ok (
    project_batch (new_batch gen composition.template_id creator_ids)
        (new_deliveries gen 0 composition.items),
    t',
  )

-- `response.state is not ResponseState.NO_RESPONSE`
abbrev pub blocks_resend : Option CampaignCreatorResponse → Bool
blocks_resend none = false
blocks_resend (some row) = not (is_no_response row.state)

unfoldable pub is_resendable : Delivery → OutreachTables → Bool
is_resendable row t =
    is_none row.superseded_at
    && (is_sent row.send_state || is_failed row.send_state)
    && is_no_response row.response_state
    && not (blocks_resend (find (of_creator row.creator_id) t.responses))

unfoldable pub supersede : Timestamp → Delivery → Delivery
supersede now row = record row { superseded_at = some now }

unfoldable pub replacement : Generators → Delivery → Delivery
unfolding new_delivery
replacement gen row =
    new_delivery gen (gen.delivery_id 0) row.creator_id (some row.id) row.content gen.batch_id

abbrev pub of_batch : Uuid → SendBatch → Bool
of_batch batch_id batch = batch.id == batch_id

-- The replacement's batch added, and the old delivery superseded.
unfoldable pub superseded_tables :
    Generators → SendBatch → Timestamp → Delivery → OutreachTables → OutreachTables
unfolding new_batch supersede
superseded_tables gen source now row t = record t {
  batches = t.batches ++ (new_batch gen source.template_id (row.creator_id ∷ []) ∷ []);
  deliveries = update (has_id row.id) (supersede now) t.deliveries;
}

-- That is flushed, then the new delivery.
unfoldable pub resend_row :
    Generators
    → Bool
    → Timestamp
    → Delivery
    → OutreachTables
    → Result (SendBatchResponse × OutreachTables)
unfolding is_resendable new_batch superseded_tables flush replacement project_batch
resend_row gen has_task now row t = do
  raise_if (not (is_resendable row t)) (api_error "delivery_not_resendable")
  source ←
      require (find (of_batch row.send_batch_id) t.batches) (api_error "outreach_campaign_invalid")
  raise_if (not has_task) (api_error "outreach_campaign_invalid")
  t' ← flush (superseded_tables gen source now row t)
  t'' ← flush (record t' { deliveries = t'.deliveries ++ (replacement gen row ∷ []) })
  ok (
    project_batch (new_batch gen source.template_id (row.creator_id ∷ []))
        (replacement gen row ∷ []),
    t'',
  )

unfoldable pub resend_delivery :
    Generators
    → Bool
    → Timestamp
    → Uuid
    → OutreachTables
    → Result (SendBatchResponse × OutreachTables)
unfolding resend_row
resend_delivery gen has_task now delivery_id t = do
  row ← require (find (has_id delivery_id) t.deliveries) (api_error "delivery_not_found")
  raise_if (not t.has_campaign) (api_error "delivery_not_found")
  resend_row gen has_task now row t
