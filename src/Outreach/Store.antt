-- ===== src/Outreach/Store.antt =====
-- `DeliveryTaskStore` of backend/app/workers/outreach_tasks.py: the transitions of one delivery, each
-- with the recomputed state of its batch, in one transaction.
use find_me_gamer.Prelude.{
  Bool, true, false, not, ◌&&◌, ◌||◌, Option, none, some, List, [], ◌∷◌, String, map, ◌==◌, is_some,
  is_none, if◌then◌else◌, find, all, update, bool_eq, str_eq,
}
use find_me_gamer.Result.{
  retryable_delivery, value_error, Result, ok, ◌>>=◌, ◌>>◌, raise_if, require,
}
use find_me_gamer.Match.Model.{Uuid, Timestamp, Clock}
use find_me_gamer.Outreach.Model.{
  SendBatchState, DeliverySendState, Delivery, DeliveryContent, SendBatch, OutreachTables,
  is_queued, is_sending, is_sent, is_failed, has_id, states_of,
}

-- `_aware_utc`
unfoldable pub aware_utc : Clock → Result Timestamp
aware_utc clock = require clock retryable_delivery

-- The chain of tests in `_recompute_batch`; `none` leaves the batch as it is.
unfoldable pub batch_state : List DeliverySendState → Option SendBatchState
batch_state [] = none
batch_state (s ∷ states) =
    if all is_queued (s ∷ states)
    then some SendBatchState.queued
    else if all is_sent (s ∷ states)
    then some SendBatchState.sent
    else if all is_failed (s ∷ states)
    then some SendBatchState.failed
    else if all (λ state. is_sent state || is_failed state) (s ∷ states)
    then some SendBatchState.partially_failed
    else some SendBatchState.sending

unfoldable pub recomputed : Uuid → List DeliverySendState → SendBatch → SendBatch
unfolding batch_state
recomputed batch_id states batch =
    if batch.id == batch_id
    then elim (batch_state states) [ none ↦ batch | some state ↦ record batch { state = state } ]
    else batch

unfoldable pub recompute_batch : Uuid → OutreachTables → OutreachTables
unfolding recomputed
recompute_batch batch_id t = record t {
  batches = map (recomputed batch_id (states_of batch_id t.deliveries)) t.batches;
}

-- A change of the row of one delivery, and its batch recomputed.
unfoldable pub change_delivery : Delivery → (Delivery → Delivery) → OutreachTables → OutreachTables
unfolding recompute_batch
change_delivery row change t =
    recompute_batch row.send_batch_id
      (record t { deliveries = update (has_id row.id) change t.deliveries })

unfoldable pub start_sending : Timestamp → Delivery → Delivery
start_sending now row = record row { send_state = DeliverySendState.sending; sending_at = some now }

unfoldable pub requeue : Delivery → Delivery
requeue row = record row {
  send_state = DeliverySendState.queued;
  sending_at = none;
  sent_at = none;
  failed_at = none;
  smtp_error_code = none;
  smtp_error_message = none;
  smtp_retryable = false;
}

unfoldable pub finish_sending : Timestamp → Delivery → Delivery
finish_sending now row = record row {
  send_state = DeliverySendState.sent;
  sent_at = some now;
  failed_at = none;
  smtp_error_code = none;
  smtp_error_message = none;
  smtp_retryable = false;
}

pub record DeliveryFailure : Type 0 where
  pub code : String
  pub message : String
  pub retryable : Bool

unfoldable pub fail_sending : DeliveryFailure → Timestamp → Delivery → Delivery
fail_sending failure now row = record row {
  send_state = DeliverySendState.failed;
  failed_at = some now;
  sent_at = none;
  smtp_error_code = some failure.code;
  smtp_error_message = some failure.message;
  smtp_retryable = failure.retryable;
}

-- What the executor reads of a claimed delivery.
pub record DeliverySnapshot : Type 0 where
  pub id : Uuid
  pub content : DeliveryContent
  pub response_token_digest : String

unfoldable pub claim_row :
    Clock → Option Delivery → OutreachTables → Result (Option DeliverySnapshot × OutreachTables)
unfolding aware_utc start_sending change_delivery
claim_row clock none t = ok (none, t)
claim_row clock (some row) t =
    if is_some row.superseded_at || not (is_queued row.send_state) then ok (none, t) else (do
      now ← aware_utc clock
      ok (
        some (record {
          id = row.id;
          content = row.content;
          response_token_digest = row.response_token_digest;
        }),
        change_delivery row (start_sending now) t,
      ))

unfoldable pub claim :
    Clock → Uuid → OutreachTables → Result (Option DeliverySnapshot × OutreachTables)
unfolding claim_row
claim clock delivery_id t = claim_row clock (find (has_id delivery_id) t.deliveries) t

-- The guard that the other transitions share.
unfoldable pub is_open : Delivery → Bool
is_open row = is_none row.superseded_at && is_sending row.send_state

-- A transition of an open delivery by a change that reads the clock.
unfoldable pub settle_row :
    Clock
    → (Timestamp → Delivery → Delivery)
    → Option Delivery
    → OutreachTables
    → Result (Bool × OutreachTables)
unfolding is_open aware_utc change_delivery
settle_row clock change none t = ok (false, t)
settle_row clock change (some row) t =
    if not (is_open row)
    then ok (false, t)
    else (do now ← aware_utc clock; ok (true, change_delivery row (change now) t))

unfoldable pub release_row : Option Delivery → OutreachTables → Bool × OutreachTables
unfolding is_open requeue change_delivery
release_row none t = (false, t)
release_row (some row) t =
    if not (is_open row) then (false, t) else (true, change_delivery row requeue t)

unfoldable pub release_for_retry : Uuid → OutreachTables → Bool × OutreachTables
unfolding release_row
release_for_retry delivery_id t = release_row (find (has_id delivery_id) t.deliveries) t

unfoldable pub mark_sent : Clock → Uuid → OutreachTables → Result (Bool × OutreachTables)
unfolding settle_row finish_sending
mark_sent clock delivery_id t =
    settle_row clock finish_sending (find (has_id delivery_id) t.deliveries) t

abbrev pub permanent_failure : DeliveryFailure
permanent_failure = record {
  code = "smtp_rejected";
  message = "SMTP rejected the request.";
  retryable = false;
}

abbrev pub preparation_failure : DeliveryFailure
preparation_failure = record {
  code = "outreach_delivery_invalid";
  message = "Outreach delivery could not be prepared.";
  retryable = false;
}

abbrev pub temporary_failure : DeliveryFailure
temporary_failure = record {
  code = "smtp_temporarily_unavailable";
  message = "SMTP is temporarily unavailable.";
  retryable = true;
}

abbrev same_failure : DeliveryFailure → DeliveryFailure → Bool
same_failure a b =
    str_eq a.code b.code && str_eq a.message b.message && bool_eq a.retryable b.retryable

-- `(code, message, retryable) in allowed`
unfoldable pub is_allowed : DeliveryFailure → Bool
is_allowed failure =
    same_failure failure permanent_failure
    || same_failure failure preparation_failure
    || same_failure failure temporary_failure

unfoldable pub mark_failed :
    Clock → Uuid → DeliveryFailure → OutreachTables → Result (Bool × OutreachTables)
unfolding is_allowed settle_row fail_sending
mark_failed clock delivery_id failure t = do
  raise_if (not (is_allowed failure)) value_error
  settle_row clock (fail_sending failure) (find (has_id delivery_id) t.deliveries) t
