-- ===== src/Outreach/Once.antt =====
-- The workers that send deliveries, seen together (`DeliveryExecutor` and `send_delivery` of
-- backend/app/workers/outreach_tasks.py): every interleaving of their transactions with their calls
-- of the SMTP server and with the transactions of the other parts.
pub mod Settled
pub mod Transactions
pub mod Accepted
use find_me_gamer.Prelude.{
  ℕ, ◌+◌, ◌≡◌, Bool, true, false, ◌&&◌, Option, none, some, List, [], ◌∷◌, ◌++◌, String,
}
use find_me_gamer.Result.{Result, ok}
use find_me_gamer.Match.Model.{Uuid, Timestamp}
use find_me_gamer.Outreach.Model.{ResponseState, Delivery, OutreachTables, delivery_ids}
use find_me_gamer.Outreach.Store.{
  DeliveryFailure, DeliverySnapshot, claim, release_for_retry, mark_sent, mark_failed,
  temporary_failure, permanent_failure, preparation_failure,
}
use find_me_gamer.Outreach.Responses.{ResponseConfirmation, confirm_response}
use find_me_gamer.Outreach.Batches.{
  Generators, Composition, SendBatchResponse, create_send_batch, resend_delivery,
}

-- Where a worker stands between its claim and its last transaction: it has the snapshot, `send`
-- returned, `SMTPPermanentError` was raised, or `RetryableDeliveryError` left `execute`.
pub data Stage : Type 0 where
  claimed accepted rejected raised : Stage

-- The stages that an exception ends in.
abbrev pub is_refusal : Stage → Bool
is_refusal rejected = true
is_refusal raised = true
is_refusal _ = false

pub record Flight : Type 0 where
  pub delivery_id : Uuid
  pub stage : Stage

-- The tables, the workers in flight, and the deliveries for which `send` returned, latest first.
pub record World : Type 0 where
  pub tables : OutreachTables
  pub flights : List Flight
  pub outbox : List Uuid

abbrev pub in_stage : Stage → Uuid → Flight
in_stage stage delivery_id = record { delivery_id = delivery_id; stage = stage }

-- One step of one worker, or one transaction of another part. A worker that is killed, or that a
-- database error stops, is lost. The clocks are aware, as `datetime.now(UTC)` is.
pub data Step : World → World → Type 0 where
  -- `claim` returns a snapshot
  claims :
      (w : World) (now : Timestamp) (id : Uuid) (snapshot : DeliverySnapshot) (u : OutreachTables)
      → claim (some now) id w.tables ≡ ok (some snapshot, u)
      → Step w (record w { tables = u; flights = in_stage claimed id ∷ w.flights })
  -- `_smtp_gateway.send` returns
  sends :
      (t : OutreachTables) (before after : List Flight) (id : Uuid) (outbox : List Uuid)
      → Step
          (record {
            tables = t;
            flights = before ++ (in_stage claimed id ∷ after);
            outbox = outbox;
          })
          (record {
            tables = t;
            flights = before ++ (in_stage accepted id ∷ after);
            outbox = id ∷ outbox;
          })
  -- `_smtp_gateway.send` raises, or the settings, the password or the limiter do
  stops :
      (t : OutreachTables) (before after : List Flight) (id : Uuid) (outbox : List Uuid)
      (stage : Stage)
      → is_refusal stage ≡ true
      → Step
          (record {
            tables = t;
            flights = before ++ (in_stage claimed id ∷ after);
            outbox = outbox;
          })
          (record { tables = t; flights = before ++ (in_stage stage id ∷ after); outbox = outbox })
  -- `mark_failed` in `_message`, which then raises `SMTPPermanentError`
  cannot_prepare :
      (t u : OutreachTables) (now : Timestamp) (marked : Bool) (before after : List Flight)
      (id : Uuid) (outbox : List Uuid)
      → mark_failed (some now) id preparation_failure t ≡ ok (marked, u)
      → Step
          (record {
            tables = t;
            flights = before ++ (in_stage claimed id ∷ after);
            outbox = outbox;
          })
          (record {
            tables = u;
            flights = before ++ (in_stage rejected id ∷ after);
            outbox = outbox;
          })
  -- the handler of `SMTPPermanentError`
  fails :
      (t u : OutreachTables) (now : Timestamp) (marked : Bool) (before after : List Flight)
      (id : Uuid) (outbox : List Uuid)
      → mark_failed (some now) id permanent_failure t ≡ ok (marked, u)
      → Step
          (record {
            tables = t;
            flights = before ++ (in_stage rejected id ∷ after);
            outbox = outbox;
          })
          (record { tables = u; flights = before ++ after; outbox = outbox })
  -- the last line of `execute`
  marks :
      (t u : OutreachTables) (now : Timestamp) (marked : Bool) (before after : List Flight)
      (id : Uuid) (outbox : List Uuid)
      → mark_sent (some now) id t ≡ ok (marked, u)
      → Step
          (record {
            tables = t;
            flights = before ++ (in_stage accepted id ∷ after);
            outbox = outbox;
          })
          (record { tables = u; flights = before ++ after; outbox = outbox })
  -- `send_delivery` retries
  releases :
      (t : OutreachTables) (before after : List Flight) (id : Uuid) (outbox : List Uuid)
      → Step
          (record { tables = t; flights = before ++ (in_stage raised id ∷ after); outbox = outbox })
          (record {
            tables = (release_for_retry id t).1;
            flights = before ++ after;
            outbox = outbox;
          })
  -- `send_delivery` gives up
  exhausts :
      (t u : OutreachTables) (now : Timestamp) (marked : Bool) (before after : List Flight)
      (id : Uuid) (outbox : List Uuid)
      → mark_failed (some now) id temporary_failure t ≡ ok (marked, u)
      → Step
          (record { tables = t; flights = before ++ (in_stage raised id ∷ after); outbox = outbox })
          (record { tables = u; flights = before ++ after; outbox = outbox })
  lost :
      (t : OutreachTables) (before after : List Flight) (flight : Flight) (outbox : List Uuid)
      → Step
          (record { tables = t; flights = before ++ (flight ∷ after); outbox = outbox })
          (record { tables = t; flights = before ++ after; outbox = outbox })
  creates :
      (w : World) (gen : Generators) (composition : Composition) (creator_ids : List Uuid)
      (response : SendBatchResponse) (u : OutreachTables)
      → create_send_batch gen composition creator_ids w.tables ≡ ok (response, u)
      → Step w (record w { tables = u })
  resends :
      (w : World) (gen : Generators) (has_task : Bool) (now : Timestamp) (id : Uuid)
      (response : SendBatchResponse) (u : OutreachTables)
      → resend_delivery gen has_task now id w.tables ≡ ok (response, u)
      → Step w (record w { tables = u })
  confirms :
      (w : World) (digest : String) (choice : ResponseState) (now : Timestamp)
      (response : ResponseConfirmation) (u : OutreachTables)
      → confirm_response digest choice now w.tables ≡ ok (response, u)
      → Step w (record w { tables = u })

-- From the tables, with no worker in flight and nothing sent.
pub data Run (t : OutreachTables) : World → Type 0 where
  start : Run t (record { tables = t; flights = []; outbox = [] })
  next : {w v : World} → Run t w → Step w v → Run t v
