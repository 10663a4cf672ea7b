-- ===== src/Outreach/Once/Transactions.antt =====
-- The transactions on a delivery's row, and which of them can make a delivery claimable
-- (backend/app/workers/outreach_tasks.py, backend/app/outreach/batches.py and
-- backend/app/outreach/responses.py).
use mathlib.Core.Path.{subst}
use find_me_gamer.Prelude.{
  ==_iff, ◌≡◌, refl, inl, inr, Bool, true, false, not, ◌||◌, Option, none, some, List, [], ◌∷◌,
  String, ◌==◌, find, update, is_some, str_eq, arith, Bool-cases, if-holds, find-passes,
}
use find_me_gamer.Prelude.Sets.{distinct}
use find_me_gamer.Result.{
  Result, ◌>>=◌, require, Ensures, returned, raised, Ensures-if, Ensures-require, Ensures-raise_if,
}
use find_me_gamer.Match.Model.{Uuid, Timestamp, Clock}
use find_me_gamer.Outreach.Model.{
  ResponseState, CampaignCreatorResponse, Delivery, OutreachTables, is_queued, is_final, has_id,
}
use find_me_gamer.Outreach.Store.{
  start_sending, requeue, finish_sending, fail_sending, DeliveryFailure, claim_row, claim, is_open,
  settle_row, change_delivery, recompute_batch, release_row, release_for_retry, mark_sent,
  mark_failed, aware_utc, is_allowed,
}
use find_me_gamer.Outreach.Responses.{
  ResponseConfirmation, final_response, is_eligible, answered, confirm_tables, confirm_open,
  confirm_row, confirm_located, confirm_response, delivery_for_digest,
}
use find_me_gamer.Outreach.Batches.{
  Generators, Composition, create_send_batch, is_resendable, supersede, replacement, resend_row,
  resend_delivery, new_deliveries, flush, has_prior, has_confirmed, superseded_tables, of_batch,
  current_creators,
}
use find_me_gamer.Outreach.Once.Settled.{
  is_settled, settled, settled-update, settled-others, settled-changed, settled-append,
}
use find_me_gamer.Outreach.Invariant.Changes.{found_again}

abbrev pub Preserves : OutreachTables → OutreachTables → Type 0
Preserves t u = (d : Uuid) → settled d t ≡ true → settled d u ≡ true

-- A claim that returns a snapshot found the delivery claimable, and it no longer is.
abbrev pub Claims {ℓ} : {A : Type ℓ} → Uuid → OutreachTables → Option A × OutreachTables → Type ℓ
Claims id t out =
    Preserves t out.1
    × ((s : _) → out.0 ≡ some s → (settled id t ≡ false) × (settled id out.1 ≡ true))

claim_row-Claims :
    (now : Timestamp) (id : Uuid) (row : Option Delivery) (t : OutreachTables)
    → find (has_id id) t.deliveries ≡ row
    → Ensures (Claims id t) (claim_row (some now) row t)
unfolding claim_row aware_utc change_delivery recompute_batch start_sending ◌>>=◌ require
claim_row-Claims now id none t found = returned ((λ d h. h), (λ s e. cc))
claim_row-Claims now id (some row) t found =
    Ensures-if (is_some row.superseded_at || not (is_queued row.send_state)) _ _
      (λ skipped. returned ((λ d h. h), (λ s e. cc)))
      (λ open_row. returned (
        (λ d h.
            settled-update row.id (start_sending now) (λ x. refl) d t.deliveries
              (found_again id t.deliveries found) (ground arith) h),
        (λ s e. (
          rw found (ground arith),
          subst
              (λ i.
                is_settled
                  (find (has_id i) (update (has_id row.id) (start_sending now) t.deliveries))
                ≡ true)
              ((==_iff row.id id).0 (find-passes (has_id id) t.deliveries found))
              (settled-changed row.id (start_sending now) (λ x. refl) t.deliveries
                (found_again id t.deliveries found) (ground arith)),
        )),
      ))

settle_row-Preserves :
    (change : Timestamp → Delivery → Delivery) (clock : Clock) (id : Uuid) (row : Option Delivery)
    (t : OutreachTables)
    → ((now : Timestamp) (x : Delivery) → (change now x).id ≡ x.id)
    → ((now : Timestamp) (x : Delivery) → is_queued (change now x).send_state ≡ false)
    → find (has_id id) t.deliveries ≡ row
    → Ensures (λ out. Preserves t out.1) (settle_row clock change row t)
unfolding settle_row change_delivery recompute_batch
settle_row-Preserves change clock id none t keeps_id stays found = returned (λ d h. h)
settle_row-Preserves change clock id (some row) t keeps_id stays found =
    Ensures-if (not (is_open row)) _ _ (λ closed. returned (λ d h. h))
      (λ open_row.
        unfold aware_utc in
        Ensures-require clock _ _ (λ now is_now. returned (λ d h.
          settled-update row.id (change now) (keeps_id now) d t.deliveries
            (found_again id t.deliveries found) (ground (arith, stays now row)) h)))

pub mark_sent-Preserves :
    (clock : Clock) (id : Uuid) (t : OutreachTables)
    → Ensures (λ out. Preserves t out.1) (mark_sent clock id t)
unfolding mark_sent finish_sending
mark_sent-Preserves clock id t =
    settle_row-Preserves finish_sending clock id (find (has_id id) t.deliveries) t (λ now x. refl)
      (λ now x. refl) refl

pub mark_failed-Preserves :
    (clock : Clock) (id : Uuid) (failure : DeliveryFailure) (t : OutreachTables)
    → Ensures (λ out. Preserves t out.1) (mark_failed clock id failure t)
unfolding mark_failed fail_sending
mark_failed-Preserves clock id failure t =
    Ensures-raise_if (not (is_allowed failure)) _ _ (λ allowed.
      settle_row-Preserves (fail_sending failure) clock id (find (has_id id) t.deliveries) t
        (λ now x. refl) (λ now x. refl) refl)

release_row-others :
    (id : Uuid) (row : Option Delivery) (t : OutreachTables) (d : Uuid)
    → find (has_id id) t.deliveries ≡ row
    → (id == d) ≡ false
    → settled d t ≡ true
    → settled d (release_row row t).1 ≡ true
unfolding release_row change_delivery recompute_batch requeue
release_row-others id none t d found differs h = h
release_row-others id (some row) t d found differs h =
    if-holds (λ (out : Bool × OutreachTables). settled d out.1 ≡ true) (not (is_open row))
      (λ closed. h)
      (λ open_row.
        settled-others row.id requeue (λ x. refl) d t.deliveries
          (ground (arith, find-passes (has_id id) t.deliveries found)) h)

-- A release makes no delivery claimable but its own.
pub release_for_retry-others :
    (id : Uuid) (t : OutreachTables) (d : Uuid)
    → (id == d) ≡ false
    → settled d t ≡ true
    → settled d (release_for_retry id t).1 ≡ true
unfolding release_for_retry
release_for_retry-others id t d = release_row-others id (find (has_id id) t.deliveries) t d refl

pub claim-Claims :
    (now : Timestamp) (id : Uuid) (t : OutreachTables)
    → Ensures (Claims id t) (claim (some now) id t)
unfolding claim
claim-Claims now id t = claim_row-Claims now id (find (has_id id) t.deliveries) t refl

Ensures-flush_ok {ℓ κ} :
    {A : Type ℓ} {P : A → Type κ} (t : OutreachTables) (f : OutreachTables → Result A)
    → Ensures P (f t)
    → Ensures P (flush t >>= f)
unfolding flush ◌>>=◌
Ensures-flush_ok {P = P} t f h = elim (Bool-cases (distinct (current_creators t.deliveries))) [
  | inl unique ↦ rw unique h
  | inr clash ↦ rw clash raised
]

pub create_send_batch-Preserves :
    (gen : Generators) (composition : Composition) (creator_ids : List Uuid) (t : OutreachTables)
    → Ensures (λ out. Preserves t out.1) (create_send_batch gen composition creator_ids t)
unfolding create_send_batch
create_send_batch-Preserves gen composition creator_ids t =
    Ensures-raise_if (has_prior creator_ids t || has_confirmed creator_ids t) _ _ (λ unsent.
      Ensures-flush_ok _ _ (
        returned (λ d h. settled-append d t.deliveries (new_deliveries gen 0 composition.items) h)))

resend_row-Preserves :
    (gen : Generators) (has_task : Bool) (now : Timestamp) (row : Delivery) (t : OutreachTables)
    → find (has_id row.id) t.deliveries ≡ some row
    → Ensures (λ out. Preserves t out.1) (resend_row gen has_task now row t)
unfolding resend_row superseded_tables supersede
resend_row-Preserves gen has_task now row t found =
    Ensures-raise_if (not (is_resendable row t)) _ _ (λ resendable.
      Ensures-require (find (of_batch row.send_batch_id) t.batches) _ _ (λ source is_source.
        Ensures-raise_if (not has_task) _ _ (λ there.
          Ensures-flush_ok (superseded_tables gen source now row t) _ (
            Ensures-flush_ok _ _ (
              returned (λ d h.
                settled-append d (update (has_id row.id) (supersede now) t.deliveries)
                  (replacement gen row ∷ [])
                  (settled-update row.id (supersede now) (λ x. refl) d t.deliveries found refl
                    h)))))))

pub resend_delivery-Preserves :
    (gen : Generators) (has_task : Bool) (now : Timestamp) (id : Uuid) (t : OutreachTables)
    → Ensures (λ out. Preserves t out.1) (resend_delivery gen has_task now id t)
unfolding resend_delivery
resend_delivery-Preserves gen has_task now id t =
    Ensures-require (find (has_id id) t.deliveries) _ _ (λ row found.
      Ensures-raise_if (not t.has_campaign) _ _
        (λ there. resend_row-Preserves gen has_task now row t (found_again id t.deliveries found)))

confirm_tables-Preserves :
    (row : Delivery) (choice : ResponseState) (now : Timestamp) (id : Uuid) (t : OutreachTables)
    → find (has_id id) t.deliveries ≡ some row
    → is_eligible row ≡ true
    → Preserves t (confirm_tables row choice now t)
unfolding confirm_tables answered is_eligible
confirm_tables-Preserves row choice now id t found eligible d h =
    settled-update row.id (answered choice now) (λ x. refl) d t.deliveries
      (found_again id t.deliveries found) (ground arith) h

confirm_open-Preserves :
    (row : Delivery) (choice : ResponseState) (now : Timestamp) (id : Uuid) (t : OutreachTables)
    (response : Option CampaignCreatorResponse)
    → find (has_id id) t.deliveries ≡ some row
    → Preserves t (confirm_open row choice now response t).1
unfolding confirm_open
confirm_open-Preserves row choice now id t (some response) found = λ d h. h
confirm_open-Preserves row choice now id t none found =
    if-holds (λ (out : ResponseConfirmation × OutreachTables). Preserves t out.1)
      (not (is_eligible row)) (λ closed d h. h)
      (λ eligible. confirm_tables-Preserves row choice now id t found (ground arith))

confirm_row-Preserves :
    (digest : String) (choice : ResponseState) (now : Timestamp) (id : Uuid) (row : Option Delivery)
    (t : OutreachTables)
    → find (has_id id) t.deliveries ≡ row
    → Preserves t (confirm_row digest choice now row t).1
unfolding confirm_row
confirm_row-Preserves digest choice now id none t found = λ d h. h
confirm_row-Preserves digest choice now id (some row) t found =
    if-holds (λ (out : ResponseConfirmation × OutreachTables). Preserves t out.1)
      (not (str_eq digest row.response_token_digest)) (λ differs d h. h)
      (λ same. confirm_open-Preserves row choice now id t (final_response row.creator_id t) found)

confirm_located-Preserves :
    (digest : String) (choice : ResponseState) (now : Timestamp) (located : Option Delivery)
    (t : OutreachTables)
    → Preserves t (confirm_located digest choice now located t).1
unfolding confirm_located
confirm_located-Preserves digest choice now none t = λ d h. h
confirm_located-Preserves digest choice now (some located) t =
    if-holds (λ (out : ResponseConfirmation × OutreachTables). Preserves t out.1)
      (not t.has_campaign) (λ missing d h. h)
      (λ there.
        confirm_row-Preserves digest choice now located.id (find (has_id located.id) t.deliveries) t
          refl)

pub confirm_response-Preserves :
    (digest : String) (choice : ResponseState) (now : Timestamp) (t : OutreachTables)
    → Ensures (λ out. Preserves t out.1) (confirm_response digest choice now t)
unfolding confirm_response
confirm_response-Preserves digest choice now t =
    Ensures-raise_if (not (is_final choice)) _ _ (λ is_final_choice.
      returned (confirm_located-Preserves digest choice now (delivery_for_digest digest t) t))
