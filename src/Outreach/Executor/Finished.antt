-- ===== src/Outreach/Executor/Finished.antt =====
-- What a finished attempt leaves of its delivery (`send_delivery` of
-- backend/app/workers/outreach_tasks.py).
use mathlib.Core.Path.{subst}
use find_me_gamer.Prelude.{
  ℕ, ◌≡◌, refl, sym, ==_iff, find-passes, Bool, true, false, not, ◌||◌, Option, none, some, List,
  [], ◌∷◌, find, update, is_some, if-holds, leb, arith,
}
use find_me_gamer.Result.{
  Result, ok, err, ◌>>=◌, require, raise_if, checkpoint, input_error, invalid_output,
  invalid_screening, transient, permanent, api_error, retryable_delivery, smtp_permanent,
  smtp_transient, database_error, type_error, value_error, integrity_error,
}
use find_me_gamer.Match.Model.{Uuid, Timestamp}
use find_me_gamer.Outreach.Model.{Delivery, OutreachTables, has_id, is_queued}
use find_me_gamer.Outreach.Store.{
  is_open, settle_row, release_row, release_for_retry, change_delivery, recompute_batch, aware_utc,
  mark_sent, mark_failed, is_allowed, finish_sending, fail_sending, requeue, permanent_failure,
  temporary_failure, claim, claim_row,
}
use find_me_gamer.Outreach.Executor.{
  Surroundings, Attempt, Ending, lost, after_mark, conclude, execute_claimed, execute, end_attempt,
  send_delivery,
}
use find_me_gamer.Jobs.Retry.{RetryPolicy}

abbrev is_row_open : Option Delivery → Bool
is_row_open none = false
is_row_open (some row) = is_open row

-- The delivery is current, and `sending`.
abbrev pub in_progress : Uuid → OutreachTables → Bool
in_progress id t = is_row_open (find (has_id id) t.deliveries)

abbrev pub is_lost : Ending → Bool
is_lost lost = true
is_lost _ = false

closed-changed :
    (id : Uuid) (f : Delivery → Delivery) (rows : List Delivery) {row : Delivery}
    → ((x : Delivery) → (f x).id ≡ x.id)
    → find (has_id id) rows ≡ some row
    → is_open (f row) ≡ false
    → is_row_open (find (has_id id) (update (has_id id) f rows)) ≡ false
closed-changed id f [] keeps_id found closes = cc
closed-changed id f (x ∷ xs) {row} keeps_id found closes =
    ground (arith, closed-changed id f xs {row = row}, keeps_id x)

-- The change of a row that was found by its identity.
closed-update :
    (id : Uuid) (f : Delivery → Delivery) (rows : List Delivery) {row : Delivery}
    → ((x : Delivery) → (f x).id ≡ x.id)
    → find (has_id id) rows ≡ some row
    → is_open (f row) ≡ false
    → is_row_open (find (has_id id) (update (has_id row.id) f rows)) ≡ false
closed-update id f rows {row} keeps_id found closes =
    subst (λ i. is_row_open (find (has_id id) (update (has_id i) f rows)) ≡ false)
      (sym ((==_iff row.id id).0 (find-passes (has_id id) rows found)))
      (closed-changed id f rows keeps_id found closes)

-- A transition that returns, after which its delivery is not in progress.
Closes : Uuid → Result (Bool × OutreachTables) → Type 0
Closes id r = (out : Bool × OutreachTables) × (r ≡ ok out) × (in_progress id out.1 ≡ false)

module _ (now : Timestamp) (id : Uuid) where
  settle_row-Closes :
      (change : Timestamp → Delivery → Delivery) (row : Option Delivery) (t : OutreachTables)
      → ((x : Delivery) → (change now x).id ≡ x.id)
      → ((x : Delivery) → is_open (change now x) ≡ false)
      → find (has_id id) t.deliveries ≡ row
      → Closes id (settle_row (some now) change row t)
  unfolding Closes settle_row aware_utc require ◌>>=◌ change_delivery recompute_batch
  settle_row-Closes change none t keeps_id closes found = (_, refl, rw found refl)
  settle_row-Closes change (some row) t keeps_id closes found =
      if-holds (λ r. (out : Bool × OutreachTables) × (r ≡ ok out) × (in_progress id out.1 ≡ false))
        (not (is_open row)) (λ closed. (_, refl, rw found (ground arith)))
        (λ is_now_open.
          (_, refl, closed-update id (change now) t.deliveries keeps_id found (closes row)))

  mark_sent-Closes : (t : OutreachTables) → Closes id (mark_sent (some now) id t)
  unfolding mark_sent finish_sending is_open
  mark_sent-Closes t =
      settle_row-Closes finish_sending (find (has_id id) t.deliveries) t (λ x. refl)
        (λ x. ground arith) refl

  permanent-Closes :
      (t : OutreachTables) → Closes id (mark_failed (some now) id permanent_failure t)
  unfolding mark_failed fail_sending is_open is_allowed raise_if ◌>>=◌
  permanent-Closes t =
      settle_row-Closes (fail_sending permanent_failure) (find (has_id id) t.deliveries) t
        (λ x. refl) (λ x. ground arith) refl

  temporary-Closes :
      (t : OutreachTables) → Closes id (mark_failed (some now) id temporary_failure t)
  unfolding mark_failed fail_sending is_open is_allowed raise_if ◌>>=◌
  temporary-Closes t =
      settle_row-Closes (fail_sending temporary_failure) (find (has_id id) t.deliveries) t
        (λ x. refl) (λ x. ground arith) refl

  release_row-closes :
      (row : Option Delivery) (t : OutreachTables)
      → find (has_id id) t.deliveries ≡ row
      → in_progress id (release_row row t).1 ≡ false
  unfolding release_row requeue change_delivery recompute_batch
  release_row-closes none t found = rw found refl
  release_row-closes (some row) t found =
      if-holds (λ (out : Bool × OutreachTables). in_progress id out.1 ≡ false) (not (is_open row))
        (λ closed. rw found (ground arith))
        (λ is_now_open.
          closed-update id requeue t.deliveries (λ x. refl) found (unfold is_open in ground arith))

  -- A finished task, which an exception did not leave, and whose delivery is not in progress.
  IsFinished : Ending × OutreachTables → Type 0
  IsFinished (ending, t) = (is_lost ending ≡ false) × (in_progress id t ≡ false)

  module _ (policy : RetryPolicy) (retries jitter : ℕ) where
    -- What the task makes of an attempt, before the handlers of `execute` and after them.
    Finishes : Attempt → Type 0
    Finishes c = IsFinished (end_attempt policy retries jitter (some now) id c.result c.tables)

    raised-Finishes :
        (t : OutreachTables) (outbox : List Uuid)
        → Finishes (record { result = err retryable_delivery; tables = t; outbox = outbox })
    unfolding Finishes IsFinished end_attempt Closes release_for_retry
    raised-Finishes t outbox =
        if-holds
          (λ (out : Ending × OutreachTables).
            (is_lost out.0 ≡ false) × (in_progress id out.1 ≡ false))
          (leb policy.max_retries retries)
          (λ last. let (out, is_out, closed) = temporary-Closes t in rw is_out (refl, closed))
          (λ again. (refl, release_row-closes (find (has_id id) t.deliveries) t refl))

    marked-Finishes :
        (t : OutreachTables) (outbox : List Uuid) (r : Result (Bool × OutreachTables))
        → Closes id r
        → Finishes (after_mark (ok tt) t outbox r)
    unfolding Finishes IsFinished end_attempt Closes
    marked-Finishes t outbox r ((marked, u), is_out, closed) = rw is_out (refl, closed)

    conclude-Finishes :
        (r : Result (Unit {0})) (t : OutreachTables) (outbox : List Uuid)
        → Finishes (conclude (some now) id r t outbox)
    unfolding conclude
    conclude-Finishes (ok finished) t outbox =
        marked-Finishes t outbox (mark_sent (some now) id t) (mark_sent-Closes t)
    conclude-Finishes (err smtp_permanent) t outbox =
        marked-Finishes t outbox (mark_failed (some now) id permanent_failure t)
          (permanent-Closes t)
    conclude-Finishes (err (checkpoint code)) t outbox = raised-Finishes t outbox
    conclude-Finishes (err (input_error code)) t outbox = raised-Finishes t outbox
    conclude-Finishes (err invalid_output) t outbox = raised-Finishes t outbox
    conclude-Finishes (err invalid_screening) t outbox = raised-Finishes t outbox
    conclude-Finishes (err (transient code)) t outbox = raised-Finishes t outbox
    conclude-Finishes (err (permanent code)) t outbox = raised-Finishes t outbox
    conclude-Finishes (err (api_error code)) t outbox = raised-Finishes t outbox
    conclude-Finishes (err retryable_delivery) t outbox = raised-Finishes t outbox
    conclude-Finishes (err smtp_transient) t outbox = raised-Finishes t outbox
    conclude-Finishes (err database_error) t outbox = raised-Finishes t outbox
    conclude-Finishes (err type_error) t outbox = raised-Finishes t outbox
    conclude-Finishes (err value_error) t outbox = raised-Finishes t outbox
    conclude-Finishes (err integrity_error) t outbox = raised-Finishes t outbox

    claimed-Finishes :
        (env : Surroundings) (row : Option Delivery) (t : OutreachTables) (outbox : List Uuid)
        → in_progress id t ≡ false
        → Finishes (execute_claimed env (some now) id t outbox (claim_row (some now) row t))
    unfolding execute_claimed claim_row aware_utc require ◌>>=◌ Finishes IsFinished end_attempt
    claimed-Finishes env none t outbox idle = (refl, idle)
    claimed-Finishes env (some row) t outbox idle =
        if-holds (λ r. Finishes (execute_claimed env (some now) id t outbox r))
          (is_some row.superseded_at || not (is_queued row.send_state)) (λ skipped. (refl, idle))
          (λ open_row. conclude-Finishes _ _ _)

-- An attempt does not leave its delivery in progress. Where the delivery is not in progress and the
-- clock is aware, whatever the settings, the limiter and the gateway answer: the task ends without another
-- exception, or is retried, and the delivery is not left in progress.
pub send_delivery-finishes :
    (policy : RetryPolicy) (retries jitter : ℕ) (env : Surroundings) (now : Timestamp) (id : Uuid)
    (t : OutreachTables) (outbox : List Uuid)
    → in_progress id t ≡ false
    → (is_lost (send_delivery policy retries jitter env (some now) id t outbox).0 ≡ false)
      × (in_progress id (send_delivery policy retries jitter env (some now) id t outbox).1 ≡ false)
unfolding send_delivery execute claim Finishes IsFinished
send_delivery-finishes policy retries jitter env now id t outbox idle =
    claimed-Finishes now id policy retries jitter env (find (has_id id) t.deliveries) t outbox idle
