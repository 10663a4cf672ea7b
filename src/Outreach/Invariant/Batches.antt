-- ===== src/Outreach/Invariant/Batches.antt =====
-- `create_send_batch` and `resend_delivery` (backend/app/outreach/batches.py) on consistent tables.
use find_me_gamer.Prelude.{
  ◌≡◌, refl, inl, inr, Bool, true, false, not, ◌||◌, Option, some, List, [], ◌∷◌, ◌++◌, all, find,
  update, all-find, all-update, all-append, all_mono, arith, Bool-cases,
}
use find_me_gamer.Prelude.Sets.{member, distinct}
use find_me_gamer.Result.{
  Result, ◌>>=◌, Ensures, returned, raised, Ensures-require, Ensures-raise_if,
}
use find_me_gamer.Match.Model.{Uuid, Timestamp}
use find_me_gamer.Outreach.Model.{
  Delivery, SendBatch, OutreachTables, is_no_response, has_id, batch_ids, states_of,
}
use find_me_gamer.Outreach.Constraints.{
  delivery_check, smtp_error_check, send_state_check, response_state_check,
}
use find_me_gamer.Outreach.Batches.{
  Generators, Composition, current_creators, flush, new_deliveries, new_batch, add_batch,
  create_send_batch, is_resendable, supersede, replacement, resend_row, resend_delivery, has_prior,
  has_confirmed, of_batch, superseded_tables,
}
use find_me_gamer.Outreach.Invariant.{IsConsistent, batch_agrees, is_owned, response_agrees}
use find_me_gamer.Outreach.Invariant.Changes.{states_of-update_same, found_again}
use find_me_gamer.Outreach.Invariant.Answers.{same_states-agree}
use find_me_gamer.Outreach.Invariant.Sending.{Keeps}
use find_me_gamer.Outreach.Invariant.Fresh.{
  is_fresh, new_delivery-is_fresh, new_deliveries-are_fresh, states_of-append, all_queued,
  queued_expected, owned-append, owned-new,
}

module _ (gen : Generators) (template_id : Option Uuid) (creator_ids : List Uuid) where
  others_agree :
      (rows news : List Delivery) (batches : List SendBatch)
      → member gen.batch_id (batch_ids batches) ≡ false
      → all (is_fresh gen.batch_id) news ≡ true
      → all (batch_agrees rows) batches ≡ true
      → all (batch_agrees (rows ++ news)) batches ≡ true
  unfolding batch_agrees
  others_agree rows news [] unknown fresh agree = refl
  others_agree rows news (b ∷ bs) unknown fresh agree =
      rw (states_of-append gen.batch_id b.id rows news fresh (ground arith))
        (ground (arith, others_agree rows news bs))

  new_batch_agrees :
      (rows news : List Delivery) (batches : List SendBatch)
      → member gen.batch_id (batch_ids batches) ≡ false
      → all (is_owned batches) rows ≡ true
      → all (is_fresh gen.batch_id) news ≡ true
      → batch_agrees (rows ++ news) (new_batch gen template_id creator_ids) ≡ true
  unfolding batch_agrees new_batch
  new_batch_agrees rows news batches unknown owned fresh =
      queued_expected (states_of gen.batch_id (rows ++ news))
        (all_queued gen.batch_id batches rows news unknown owned fresh)

  -- Adding a batch with its deliveries to consistent tables.
  pub add_batch-IsConsistent :
      (news : List Delivery) (t : OutreachTables)
      → member gen.batch_id (batch_ids t.batches) ≡ false
      → all (is_fresh gen.batch_id) news ≡ true
      → distinct (current_creators (t.deliveries ++ news)) ≡ true
      → IsConsistent t
      → IsConsistent (add_batch (new_batch gen template_id creator_ids) news t)
  unfolding new_batch
  add_batch-IsConsistent news t unknown fresh unique inv = record {
    checked = rw (all-append delivery_check t.deliveries news) (
        ground (
          arith,
          inv.checked,
          all_mono (is_fresh gen.batch_id) delivery_check news (λ x h. ground arith),
        ));
    agree =
        rw
          (all-append (batch_agrees (t.deliveries ++ news)) t.batches
            (new_batch gen template_id creator_ids ∷ []))
          (ground (
            arith,
            others_agree t.deliveries news t.batches unknown fresh inv.agree,
            new_batch_agrees t.deliveries news t.batches unknown inv.owned fresh,
          ));
    owned =
        rw
          (all-append (is_owned (t.batches ++ (new_batch gen template_id creator_ids ∷ [])))
            t.deliveries news)
          (ground (
            arith,
            all_mono (is_owned t.batches)
                (is_owned (t.batches ++ (new_batch gen template_id creator_ids ∷ []))) t.deliveries
                (owned-append (new_batch gen template_id creator_ids) t.batches) inv.owned,
            all_mono (is_fresh gen.batch_id)
                (is_owned (t.batches ++ (new_batch gen template_id creator_ids ∷ []))) news
                (λ x h.
                  owned-new (new_batch gen template_id creator_ids) t.batches x (ground arith))
                fresh,
          ));
    current = unique;
    answers = rw (all-append (response_agrees t.responses) t.deliveries news) (
        ground (
          arith,
          inv.answers,
          all_mono (is_fresh gen.batch_id) (response_agrees t.responses) news (λ x h. ground arith),
        ));
  }

Ensures-flush {ℓ κ} :
    {A : Type ℓ} {P : A → Type κ} (t : OutreachTables) (f : OutreachTables → Result A)
    → (distinct (current_creators t.deliveries) ≡ true → Ensures P (f t))
    → Ensures P (flush t >>= f)
unfolding flush ◌>>=◌
Ensures-flush {P = P} t f h = elim (Bool-cases (distinct (current_creators t.deliveries))) [
  | inl unique ↦ rw unique (h unique)
  | inr clash ↦ rw clash raised
]

pub create_send_batch-Keeps :
    (gen : Generators) (composition : Composition) (creator_ids : List Uuid) (t : OutreachTables)
    → member gen.batch_id (batch_ids t.batches) ≡ false
    → IsConsistent t
    → Keeps (create_send_batch gen composition creator_ids t)
unfolding create_send_batch
create_send_batch-Keeps gen composition creator_ids t unknown inv =
    Ensures-raise_if (has_prior creator_ids t || has_confirmed creator_ids t) _ _ (λ unsent.
      Ensures-flush _ _ (λ unique. returned (
        add_batch-IsConsistent gen composition.template_id creator_ids
          (new_deliveries gen 0 composition.items) t unknown
          (new_deliveries-are_fresh gen 0 composition.items) unique inv)))

supersede-check :
    (now : Timestamp) (row : Delivery)
    → is_no_response row.response_state ≡ true
    → delivery_check row ≡ true
    → delivery_check (supersede now row) ≡ true
unfolding delivery_check smtp_error_check send_state_check response_state_check supersede
supersede-check now row unanswered h = ground arith

-- The deliveries after one of them was superseded.
superseded-IsConsistent :
    (row : Delivery) (now : Timestamp) (t : OutreachTables)
    → find (has_id row.id) t.deliveries ≡ some row
    → is_no_response row.response_state ≡ true
    → distinct (current_creators (update (has_id row.id) (supersede now) t.deliveries)) ≡ true
    → IsConsistent t
    → IsConsistent (record t { deliveries = update (has_id row.id) (supersede now) t.deliveries })
unfolding supersede
superseded-IsConsistent row now t found unanswered unique inv = record {
  checked =
      all-update delivery_check (has_id row.id) (supersede now) t.deliveries inv.checked found (
        supersede-check now row unanswered
          (all-find delivery_check (has_id row.id) t.deliveries inv.checked found));
  agree =
      same_states-agree t.deliveries (update (has_id row.id) (supersede now) t.deliveries) t.batches
        (λ batch_id.
          states_of-update_same (supersede now) (has_id row.id) batch_id t.deliveries found refl
            refl)
        inv.agree;
  owned =
      all-update (is_owned t.batches) (has_id row.id) (supersede now) t.deliveries inv.owned found
        (all-find (is_owned t.batches) (has_id row.id) t.deliveries inv.owned found);
  current = unique;
  answers =
      all-update (response_agrees t.responses) (has_id row.id) (supersede now) t.deliveries
        inv.answers found
        (all-find (response_agrees t.responses) (has_id row.id) t.deliveries inv.answers found);
}

resend_row-Keeps :
    (gen : Generators) (has_task : Bool) (now : Timestamp) (row : Delivery) (t : OutreachTables)
    → find (has_id row.id) t.deliveries ≡ some row
    → member gen.batch_id (batch_ids t.batches) ≡ false
    → IsConsistent t
    → Keeps (resend_row gen has_task now row t)
unfolding resend_row is_resendable replacement superseded_tables
resend_row-Keeps gen has_task now row t found unknown inv =
    Ensures-raise_if (not (is_resendable row t)) _ _ (λ resendable.
      Ensures-require (find (of_batch row.send_batch_id) t.batches) _ _ (λ source is_source.
        Ensures-raise_if (not has_task) _ _ (λ there.
          Ensures-flush (superseded_tables gen source now row t) _ (λ unique.
            Ensures-flush _ _ (λ unique_again. returned (
              add_batch-IsConsistent gen source.template_id (row.creator_id ∷ [])
                (replacement gen row ∷ [])
                (record t { deliveries = update (has_id row.id) (supersede now) t.deliveries })
                unknown
                (ground (
                  arith,
                  new_delivery-is_fresh gen (gen.delivery_id 0) row.creator_id (some row.id)
                      row.content,
                ))
                unique_again
                (superseded-IsConsistent row now t found (ground arith) unique inv)))))))

pub resend_delivery-Keeps :
    (gen : Generators) (has_task : Bool) (now : Timestamp) (delivery_id : Uuid) (t : OutreachTables)
    → member gen.batch_id (batch_ids t.batches) ≡ false
    → IsConsistent t
    → Keeps (resend_delivery gen has_task now delivery_id t)
unfolding resend_delivery
resend_delivery-Keeps gen has_task now delivery_id t unknown inv =
    Ensures-require (find (has_id delivery_id) t.deliveries) _ _ (λ row found.
      Ensures-raise_if (not t.has_campaign) _ _ (λ there.
        resend_row-Keeps gen has_task now row t (found_again delivery_id t.deliveries found) unknown
          inv))
