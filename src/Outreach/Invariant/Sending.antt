-- ===== src/Outreach/Invariant/Sending.antt =====
-- The transitions of `DeliveryTaskStore` (backend/app/workers/outreach_tasks.py) on consistent tables.
use find_me_gamer.Prelude.{
  ◌≡◌, refl, inl, inr, true, not, ◌&&◌, ◌||◌, Option, none, some, find, is_some, is_none, all-find,
  arith, Bool-cases,
}
use find_me_gamer.Result.{Result, Ensures, returned, Ensures-if, Ensures-require, Ensures-raise_if}
use find_me_gamer.Match.Model.{Uuid, Timestamp, Clock}
use find_me_gamer.Outreach.Model.{Delivery, OutreachTables, is_queued, is_sending, has_id}
use find_me_gamer.Outreach.Constraints.{
  delivery_check, smtp_error_check, send_state_check, response_state_check,
}
use find_me_gamer.Outreach.Store.{
  start_sending, requeue, finish_sending, fail_sending, DeliveryFailure, claim_row, claim, is_open,
  settle_row, release_row, release_for_retry, mark_sent, mark_failed, aware_utc, is_allowed,
}
use find_me_gamer.Outreach.Invariant.{IsConsistent}
use find_me_gamer.Outreach.Invariant.Changes.{change_delivery-IsConsistent}

start_sending-check :
    (now : Timestamp) (row : Delivery)
    → delivery_check row ≡ true
    → is_queued row.send_state ≡ true
    → delivery_check (start_sending now row) ≡ true
unfolding delivery_check smtp_error_check send_state_check response_state_check start_sending
start_sending-check now row h queued = ground arith

requeue-check : (row : Delivery) → delivery_check row ≡ true → delivery_check (requeue row) ≡ true
unfolding delivery_check smtp_error_check send_state_check response_state_check requeue
requeue-check row h = ground arith

finish_sending-check :
    (now : Timestamp) (row : Delivery)
    → delivery_check row ≡ true
    → is_sending row.send_state ≡ true
    → delivery_check (finish_sending now row) ≡ true
unfolding delivery_check smtp_error_check send_state_check response_state_check finish_sending
finish_sending-check now row h sending = ground arith

fail_sending-check :
    (failure : DeliveryFailure) (now : Timestamp) (row : Delivery)
    → delivery_check row ≡ true
    → is_sending row.send_state ≡ true
    → delivery_check (fail_sending failure now row) ≡ true
unfolding delivery_check smtp_error_check send_state_check response_state_check fail_sending
fail_sending-check failure now row h sending = ground arith

-- What a transition leaves in the tables.
abbrev pub Keeps {ℓ} : {A : Type ℓ} → Result (A × OutreachTables) → Type ℓ
Keeps r = Ensures (λ out. IsConsistent out.1) r

claim_row-Keeps :
    (clock : Clock) (id : Uuid) (row : Option Delivery) (t : OutreachTables)
    → find (has_id id) t.deliveries ≡ row
    → IsConsistent t
    → Keeps (claim_row clock row t)
unfolding claim_row start_sending
claim_row-Keeps clock id none t found inv = returned inv
claim_row-Keeps clock id (some row) t found inv =
    Ensures-if (is_some row.superseded_at || not (is_queued row.send_state)) _ _
      (λ skipped. returned inv)
      (λ open_row.
        unfold aware_utc in
        Ensures-require clock _ _ (λ now is_now. returned (
          change_delivery-IsConsistent (start_sending now) id t row found refl refl refl refl
            (start_sending-check now row
              (all-find delivery_check (has_id id) t.deliveries inv.checked found) (ground arith))
            inv)))

pub claim-Keeps :
    (clock : Clock) (id : Uuid) (t : OutreachTables) → IsConsistent t → Keeps (claim clock id t)
unfolding claim
claim-Keeps clock id t inv = claim_row-Keeps clock id (find (has_id id) t.deliveries) t refl inv

settle_row-Keeps :
    (change : Timestamp → Delivery → Delivery) (clock : Clock) (id : Uuid) (row : Option Delivery)
    (t : OutreachTables)
    → ((now : Timestamp) (x : Delivery) → (change now x).send_batch_id ≡ x.send_batch_id)
    → ((now : Timestamp) (x : Delivery) → (change now x).creator_id ≡ x.creator_id)
    → ((now : Timestamp) (x : Delivery) → (change now x).superseded_at ≡ x.superseded_at)
    → ((now : Timestamp) (x : Delivery) → (change now x).response_state ≡ x.response_state)
    → ((now : Timestamp) (x : Delivery)
        → delivery_check x ≡ true
        → is_sending x.send_state ≡ true
        → delivery_check (change now x) ≡ true)
    → find (has_id id) t.deliveries ≡ row
    → IsConsistent t
    → Keeps (settle_row clock change row t)
unfolding settle_row is_open
settle_row-Keeps change clock id none t same_batch same_creator same_time same_answer passes found
      inv =
    returned inv
settle_row-Keeps change clock id (some row) t same_batch same_creator same_time same_answer passes
      found inv =
    Ensures-if (not (is_none row.superseded_at && is_sending row.send_state)) _ _
      (λ closed. returned inv)
      (λ open_row.
        unfold aware_utc in
        Ensures-require clock _ _ (λ now is_now. returned (
          change_delivery-IsConsistent (change now) id t row found (same_batch now row)
            (same_creator now row) (same_time now row) (same_answer now row)
            (passes now row (all-find delivery_check (has_id id) t.deliveries inv.checked found)
              (ground arith))
            inv)))

pub mark_sent-Keeps :
    (clock : Clock) (id : Uuid) (t : OutreachTables) → IsConsistent t → Keeps (mark_sent clock id t)
unfolding mark_sent finish_sending
mark_sent-Keeps clock id t inv =
    settle_row-Keeps finish_sending clock id (find (has_id id) t.deliveries) t (λ now x. refl)
      (λ now x. refl) (λ now x. refl) (λ now x. refl) finish_sending-check refl inv

pub mark_failed-Keeps :
    (clock : Clock) (id : Uuid) (failure : DeliveryFailure) (t : OutreachTables)
    → IsConsistent t
    → Keeps (mark_failed clock id failure t)
unfolding mark_failed fail_sending
mark_failed-Keeps clock id failure t inv =
    Ensures-raise_if (not (is_allowed failure)) _ _ (λ allowed.
      settle_row-Keeps (fail_sending failure) clock id (find (has_id id) t.deliveries) t
        (λ now x. refl) (λ now x. refl) (λ now x. refl) (λ now x. refl) (fail_sending-check failure)
        refl inv)

release_row-IsConsistent :
    (id : Uuid) (row : Option Delivery) (t : OutreachTables)
    → find (has_id id) t.deliveries ≡ row
    → IsConsistent t
    → IsConsistent (release_row row t).1
unfolding release_row is_open requeue
release_row-IsConsistent id none t found inv = inv
release_row-IsConsistent id (some row) t found inv =
    elim (Bool-cases (is_none row.superseded_at && is_sending row.send_state)) [
      | inl open_row ↦ rw open_row (
          change_delivery-IsConsistent requeue id t row found refl refl refl refl
            (requeue-check row (all-find delivery_check (has_id id) t.deliveries inv.checked found))
            inv)
      | inr closed ↦ rw closed inv
    ]

pub release_for_retry-IsConsistent :
    (id : Uuid) (t : OutreachTables) → IsConsistent t → IsConsistent (release_for_retry id t).1
unfolding release_for_retry
release_for_retry-IsConsistent id t inv =
    release_row-IsConsistent id (find (has_id id) t.deliveries) t refl inv
