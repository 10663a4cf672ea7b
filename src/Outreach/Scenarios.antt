-- ===== src/Outreach/Scenarios.antt =====
-- Concrete campaigns, at which the theorems on Outreach are applied.
use native.Mathlib.Nat.{lt-div-mul-add, div-mul-le_self}
use find_me_gamer.Prelude.{
  ℕ, ◌/◌, ◌≤◌, ◌≡◌, refl, true, false, none, some, [], ◌∷◌, find, arith, ◌*◌, ◌+◌,
}
use find_me_gamer.Result.{ok, ◌>>=◌, require}
use find_me_gamer.Outreach.Model.{
  SendBatchState, DeliverySendState, no_response, DeliveryContent, Delivery, SendBatch,
  OutreachTables,
}
use find_me_gamer.Outreach.Constraints.{
  delivery_check, smtp_error_check, send_state_check, response_state_check,
}
use find_me_gamer.Outreach.Store.{
  claim, claim_row, change_delivery, recompute_batch, batch_state, start_sending, aware_utc,
  DeliverySnapshot, is_open,
}
use find_me_gamer.Outreach.Batches.{
  Generators, SendBatchResponse, is_resendable, resend_delivery, of_batch,
}
use find_me_gamer.Outreach.Invariant.{IsConsistent}
use find_me_gamer.Outreach.Invariant.Runs.{Run-IsConsistent}
use find_me_gamer.Outreach.Invariant.Resend.{IsResent, resend_delivery-ok}
use find_me_gamer.Outreach.Metrics.{CampaignMetrics, calculate_campaign_metrics, metric_rows}
use find_me_gamer.Outreach.Metrics.Balanced.{IsMetrics, calculate_campaign_metrics-ok}
use find_me_gamer.Outreach.RateLimit.{Doubles}
use find_me_gamer.Outreach.RateLimit.Waiting.{EndsWithin, wait_for_turn, wait_for_turn-ends}
use find_me_gamer.Outreach.RateLimit.Granted.{granted, allowance, granted-le}
use find_me_gamer.Outreach.Once.{World, in_stage, Stage, claims, sends}
use find_me_gamer.Outreach.Once.Accepted.{times, Run-sends_once}
use find_me_gamer.Outreach.Executor.{Surroundings, SendOutcome, send_delivery}
use find_me_gamer.Outreach.Executor.Refinement.{send_delivery-sends_once}
use find_me_gamer.Outreach.Executor.Finished.{in_progress, is_lost, send_delivery-finishes}
use find_me_gamer.Jobs.Retry.{RetryPolicy}
use find_me_gamer.Outreach.Invariant.Runs
use find_me_gamer.Outreach.Once

abbrev letter : DeliveryContent
letter = record {
  recipient_email = "creator@example.org";
  rendered_subject = "A game";
  rendered_markdown = "Hello";
  rendered_html = "Hello";
  template_name = "Default";
  template_version = 1;
  accepted_label = "Yes";
  declined_label = "No";
  sender_name = "Studio";
  sender_address = "studio@example.org";
  reply_to = "studio@example.org";
}

abbrev waiting_row : Delivery
waiting_row = record {
  id = 1;
  send_batch_id = 10;
  creator_id = 100;
  resends_delivery_id = none;
  content = letter;
  send_state = DeliverySendState.queued;
  response_state = no_response;
  smtp_error_code = none;
  smtp_error_message = none;
  smtp_retryable = false;
  response_token_digest = "digest";
  sending_at = none;
  sent_at = none;
  failed_at = none;
  responded_at = none;
  superseded_at = none;
}

abbrev sent_row : Delivery
sent_row = record waiting_row {
  id = 2;
  creator_id = 200;
  send_state = DeliverySendState.sent;
  sending_at = some 5;
  sent_at = some 6;
}

abbrev batch : SendBatch
batch = record {
  id = 10;
  template_id = none;
  requested_creator_ids = 100 ∷ 200 ∷ [];
  state = SendBatchState.sending;
}

-- One delivery is queued, and one is sent.
abbrev tables : OutreachTables
tables = record {
  has_campaign = true;
  batches = batch ∷ [];
  deliveries = waiting_row ∷ sent_row ∷ [];
  responses = [];
}

tables-IsConsistent : IsConsistent tables
unfolding delivery_check smtp_error_check send_state_check response_state_check batch_state
tables-IsConsistent = record {
  checked = refl;
  agree = refl;
  owned = refl;
  current = refl;
  answers = refl;
}

abbrev snapshot : DeliverySnapshot
snapshot = record { id = 1; content = letter; response_token_digest = "digest" }

abbrev claimed_tables : OutreachTables
unfolding change_delivery recompute_batch start_sending
claimed_tables = change_delivery waiting_row (start_sending 7) tables

claimed_is : claim (some 7) 1 tables ≡ ok (some snapshot, claimed_tables)
unfolding claim claim_row aware_utc ◌>>=◌ require claimed_tables
claimed_is = refl

Run-IsConsistent_example : IsConsistent claimed_tables
Run-IsConsistent_example =
    Run-IsConsistent (Runs.next Runs.here (Runs.claims (some 7) 1 (some snapshot) claimed_is))
      tables-IsConsistent

abbrev generators : Generators
generators = record {
  batch_id = 11;
  delivery_id = λ n. 3;
  derive_outreach_response_token = λ id. "token";
  response_token_digest = λ raw_token. "digest";
}

resend_delivery-ok_example :
    (source : SendBatch) × (find (of_batch 10) tables.batches ≡ some source)
    × (out : SendBatchResponse × OutreachTables) × (resend_delivery generators true 8 2 tables
        ≡ ok out)
    × IsResent generators source 8 sent_row tables out
unfolding is_resendable
resend_delivery-ok_example =
    resend_delivery-ok generators 8 2 sent_row tables tables-IsConsistent refl refl refl

abbrev claimed_world : World
claimed_world = record {
  tables = claimed_tables;
  flights = in_stage Stage.claimed 1 ∷ [];
  outbox = [];
}

abbrev sent_world : World
sent_world = record {
  tables = claimed_tables;
  flights = in_stage Stage.accepted 1 ∷ [];
  outbox = 1 ∷ [];
}

sent_run : Once.Run tables sent_world
sent_run =
    Once.next
      (Once.next Once.start (
        claims (record { tables = tables; flights = []; outbox = [] }) 7 1 snapshot claimed_tables
          claimed_is))
      (sends claimed_tables [] [] 1 [])

Run-sends_once_example : times 1 (1 ∷ []) ≤ 1
Run-sends_once_example = Run-sends_once 1 sent_run

abbrev policy : RetryPolicy
policy = record { max_retries = 3; base_delay_seconds = 2; max_delay_seconds = 60 }

abbrev surroundings : Surroundings
surroundings = record {
  has_settings = true;
  decrypts = true;
  derive_outreach_response_token = λ id. "token";
  response_token_digest = λ raw_token. "digest";
  has_placeholders = λ html. true;
  limiter_grants = true;
  send = λ id. SendOutcome.delivered;
}

send_delivery-sends_once_example :
    times 1 (send_delivery policy 0 0 surroundings (some 9) 1 claimed_tables (1 ∷ [])).2 ≤ 1
send_delivery-sends_once_example =
    send_delivery-sends_once policy 0 0 surroundings 9 1 sent_world 1 sent_run

send_delivery-finishes_example :
    (is_lost (send_delivery policy 0 0 surroundings (some 9) 1 tables []).0 ≡ false)
    × (in_progress 1 (send_delivery policy 0 0 surroundings (some 9) 1 tables []).1 ≡ false)
unfolding is_open
send_delivery-finishes_example = send_delivery-finishes policy 0 0 surroundings 9 1 tables [] refl

calculate_campaign_metrics-ok_example :
    (m : CampaignMetrics) × (calculate_campaign_metrics (metric_rows tables.deliveries []) ≡ ok m)
    × IsMetrics (metric_rows tables.deliveries []) m
calculate_campaign_metrics-ok_example = calculate_campaign_metrics-ok tables.deliveries []

-- Numbers in steps of 1/400000, and results rounded down.
rounds_low : (n d : ℕ) → 1 ≤ d → n ≤ 131072 * 400000 * d → n ≤ n / d * d + 1 * d
rounds_low n d positive small = omega (arith, lt-div-mul-add {a = n} {b = d} positive)

rounds_high : (n d : ℕ) → 1 ≤ d → n ≤ 131072 * 400000 * d → n / d * d ≤ n + 1 * d
rounds_high n d positive small = omega (arith, div-mul-le_self n d)

rounds_units : (m n d : ℕ) → 1 ≤ d → m ≤ 65536 → m * d ≤ n → m ≤ n / d
rounds_units m n d positive small reached = grind (arith, lt-div-mul-add {a = n} {b = d} positive)

abbrev coarse : Doubles
coarse = record {
  one = 400000;
  round = λ n d. n / d;
  slack = 1;
  slack_small = omega arith;
  one_pos = omega arith;
  round_low = rounds_low;
  round_high = rounds_high;
  round_units = rounds_units;
}

granted-le_example :
    granted coarse 2 0 (10 ∷ 20 ∷ 30 ∷ []) none * 400000 * 60000
    ≤ 2 * 400000 * 60000 + allowance coarse 2 (10 ∷ 20 ∷ 30 ∷ [])
granted-le_example = granted-le coarse 2 0 (10 ∷ 20 ∷ 30 ∷ []) none (omega arith) (omega arith)

wait_for_turn-ends_example :
    EndsWithin 7 1000
      (60001 + 2 * 7)
      (wait_for_turn coarse 3 7 1000 (some (record { tokens = 1; updated_ms = 990 })))
wait_for_turn-ends_example =
    wait_for_turn-ends coarse 7 1000 0 (some (record { tokens = 1; updated_ms = 990 }))
      (omega arith) (omega arith)
