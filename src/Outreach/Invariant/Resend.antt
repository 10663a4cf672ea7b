-- ===== src/Outreach/Invariant/Resend.antt =====
-- The explicit resend of a delivery (`resend_delivery` of backend/app/outreach/batches.py) succeeds.
use find_me_gamer.Prelude.{
  ℕ, ◌≡◌, refl, ◌∙◌, inl, inr, Bool, true, false, not, ◌&&◌, ◌||◌, none, some, List, [], ◌∷◌, ◌++◌,
  ◌==◌, find, find-update, filter, length, update, all-find, arith, Bool-cases,
}
use find_me_gamer.Prelude.Sets.{member, distinct}
use find_me_gamer.Result.{ok, ◌>>=◌, require, raise_if, raise_if-passes}
use find_me_gamer.Match.Model.{Uuid, Timestamp}
use find_me_gamer.Outreach.Model.{
  SendBatchState, DeliverySendState, no_response, Delivery, SendBatch, OutreachTables, has_id,
  batch_ids,
}
use find_me_gamer.Outreach.Batches.{
  Generators, SendBatchResponse, is_current, current_creators, flush, new_delivery, new_batch,
  is_resendable, supersede, replacement, resend_row, resend_delivery, of_batch, superseded_tables,
  project_batch,
}
use find_me_gamer.Outreach.Invariant.{IsConsistent, is_owned}
use find_me_gamer.Outreach.Invariant.Changes.{found_again}

distinct-snoc :
    (xs : List ℕ) (a : ℕ)
    → distinct xs ≡ true
    → member a xs ≡ false
    → distinct (xs ++ (a ∷ [])) ≡ true
distinct-snoc [] a unique unknown = refl
distinct-snoc (x ∷ xs) a unique unknown = ground (arith, distinct-snoc xs a, member-snoc x xs a)
  where
    member-snoc :
        (b : ℕ) (ys : List ℕ) (c : ℕ) → member b (ys ++ (c ∷ [])) ≡ (member b ys || (b == c))
    member-snoc b [] c = ground arith
    member-snoc b (y ∷ ys) c = ground (arith, member-snoc b ys c)

current_creators-snoc :
    (rows : List Delivery) (row : Delivery)
    → is_current row ≡ true
    → current_creators (rows ++ (row ∷ [])) ≡ current_creators rows ++ (row.creator_id ∷ [])
current_creators-snoc [] row now_current = ground arith
current_creators-snoc (x ∷ xs) row now_current = ground (arith, current_creators-snoc xs row)

module _ (p : Delivery → Bool) (now : Timestamp) where
  member-superseded :
      (a : ℕ) (rows : List Delivery)
      → member a (current_creators (update p (supersede now) rows)) ≡ true
      → member a (current_creators rows) ≡ true
  unfolding supersede
  member-superseded a [] h = h
  member-superseded a (x ∷ xs) h = ground (arith, member-superseded a xs)

  member-found :
      (rows : List Delivery) (row : Delivery)
      → find p rows ≡ some row
      → is_current row ≡ true
      → member row.creator_id (current_creators rows) ≡ true
  member-found [] row found live = cc
  member-found (x ∷ xs) row found live = ground (arith, member-found xs row)

  -- Once the current delivery of a Creator is superseded, the Creator has none.
  supersede-frees :
      (rows : List Delivery) (row : Delivery)
      → find p rows ≡ some row
      → is_current row ≡ true
      → distinct (current_creators rows) ≡ true
      → (distinct (current_creators (update p (supersede now) rows))
          && not (member row.creator_id (current_creators (update p (supersede now) rows))))
        ≡ true
  unfolding supersede
  supersede-frees [] row found live unique = cc
  supersede-frees (x ∷ xs) row found live unique =
      ground (arith, supersede-frees xs row, member-superseded x.creator_id xs, member-found xs row)

flush-ok : (t : OutreachTables) → distinct (current_creators t.deliveries) ≡ true → flush t ≡ ok t
unfolding flush
flush-ok t unique = ground arith

owning_batch :
    (batch_id : Uuid) (batches : List SendBatch)
    → member batch_id (batch_ids batches) ≡ true
    → (batch : SendBatch) × (find (of_batch batch_id) batches ≡ some batch)
owning_batch batch_id [] h = absurd (ground arith)
owning_batch batch_id (b ∷ bs) h = elim (Bool-cases (b.id == batch_id)) [
  | inl same ↦ (b, ground arith)
  | inr differs ↦
      let (batch, found) = owning_batch batch_id bs (ground arith) in (batch, ground arith)
]

-- What a resend leaves: the old delivery superseded, the new one queued.
abbrev resent :
    Generators
    → SendBatch
    → Timestamp
    → Delivery
    → OutreachTables
    → SendBatchResponse × OutreachTables
unfolding project_batch new_batch replacement superseded_tables
resent gen source now row t = (
  project_batch (new_batch gen source.template_id (row.creator_id ∷ [])) (replacement gen row ∷ []),
  record (superseded_tables gen source now row t) {
    deliveries = (superseded_tables gen source now row t).deliveries ++ (replacement gen row ∷ []);
  },
)

free-distinct :
    (p : Delivery → Bool) (now : Timestamp) (rows : List Delivery) (row : Delivery)
    → find p rows ≡ some row
    → is_current row ≡ true
    → distinct (current_creators rows) ≡ true
    → distinct (current_creators (update p (supersede now) rows)) ≡ true
free-distinct p now rows row found live unique =
    ground (arith, supersede-frees p now rows row found live unique)

replaced-distinct :
    (gen : Generators) (now : Timestamp) (row : Delivery) (t : OutreachTables)
    → find (has_id row.id) t.deliveries ≡ some row
    → is_current row ≡ true
    → IsConsistent t
    → distinct (
        current_creators
          (update (has_id row.id) (supersede now) t.deliveries ++ (replacement gen row ∷ [])))
      ≡ true
unfolding replacement new_delivery
replaced-distinct gen now row t found live inv =
    let olds : List Delivery = update (has_id row.id) (supersede now) t.deliveries in
    rw (current_creators-snoc olds (replacement gen row) refl) (
      distinct-snoc (current_creators olds) row.creator_id
        (free-distinct (has_id row.id) now t.deliveries row found live inv.current)
        (ground
          (arith, supersede-frees (has_id row.id) now t.deliveries row found live inv.current)))

resend_row-ok :
    (gen : Generators) (source : SendBatch) (now : Timestamp) (row : Delivery) (t : OutreachTables)
    → find (has_id row.id) t.deliveries ≡ some row
    → find (of_batch row.send_batch_id) t.batches ≡ some source
    → is_resendable row t ≡ true
    → IsConsistent t
    → resend_row gen true now row t ≡ ok (resent gen source now row t)
unfolding resend_row flush ◌>>=◌ require raise_if superseded_tables
resend_row-ok gen source now row t found source_is resendable inv =
    let live : is_current row ≡ true = unfold is_resendable in ground arith in
    rw resendable (
      rw source_is (
        rw (free-distinct (has_id row.id) now t.deliveries row found live inv.current)
          (rw (replaced-distinct gen now row t found live inv) refl)))

-- The rows but those of one identity.
abbrev pub others : Uuid → List Delivery → List Delivery
others id = filter (λ row. not (has_id id row))

others-supersede :
    (id : Uuid) (now : Timestamp) (rows : List Delivery)
    → others id (update (has_id id) (supersede now) rows) ≡ others id rows
unfolding supersede
others-supersede id now [] = refl
others-supersede id now (x ∷ xs) = ground (arith, others-supersede id now xs)

length-supersede :
    (id : Uuid) (now : Timestamp) (rows : List Delivery)
    → length (update (has_id id) (supersede now) rows) ≡ length rows
length-supersede id now [] = refl
length-supersede id now (x ∷ xs) = ground (arith, length-supersede id now xs)

-- A new delivery that waits to be sent in place of a row.
pub record Replaces (gen : Generators) (row new : Delivery) : Type 0 where
  pub same_creator : new.creator_id ≡ row.creator_id
  pub same_content : new.content ≡ row.content
  pub linked : new.resends_delivery_id ≡ some row.id
  pub in_new_batch : new.send_batch_id ≡ gen.batch_id
  pub is_queued : new.send_state ≡ DeliverySendState.queued
  pub unanswered : new.response_state ≡ no_response
  pub live : new.superseded_at ≡ none
  pub no_times :
      (new.sending_at ≡ none)
      × (new.sent_at ≡ none)
      × (new.failed_at ≡ none)
      × (new.responded_at ≡ none)
  pub no_error :
      (new.smtp_error_code ≡ none) × (new.smtp_error_message ≡ none) × (new.smtp_retryable ≡ false)
  pub token_of_its_own :
      new.response_token_digest
      ≡ gen.response_token_digest (gen.derive_outreach_response_token new.id)

-- What a resend answers and leaves: one more batch, queued and for this Creator alone; one more
-- delivery, which replaces the row; the row superseded now and otherwise the same; and nothing else
-- changed.
pub record IsResent (gen : Generators) (source : SendBatch) (now : Timestamp) (row : Delivery)
    (t : OutreachTables) (out : SendBatchResponse × OutreachTables) : Type 0 where
  pub new : Delivery
  pub olds : List Delivery
  pub batch : SendBatch
  pub replaces : Replaces gen row new
  pub deliveries : out.1.deliveries ≡ olds ++ (new ∷ [])
  pub superseded : find (has_id row.id) olds ≡ some (record row { superseded_at = some now })
  pub others_kept : others row.id olds ≡ others row.id t.deliveries
  pub none_lost : length olds ≡ length t.deliveries
  pub batches : out.1.batches ≡ t.batches ++ (batch ∷ [])
  pub batch_is :
      (batch.id ≡ gen.batch_id)
      × (batch.template_id ≡ source.template_id)
      × (batch.requested_creator_ids ≡ row.creator_id ∷ [])
      × (batch.state ≡ SendBatchState.queued)
  pub rest_kept : (out.1.responses ≡ t.responses) × (out.1.has_campaign ≡ t.has_campaign)
  pub answer :
      (out.0.id ≡ batch.id)
      × (out.0.template_id ≡ batch.template_id)
      × (out.0.requested_creator_ids ≡ batch.requested_creator_ids)
      × (out.0.deliveries ≡ new ∷ [])

resent-IsResent :
    (gen : Generators) (source : SendBatch) (now : Timestamp) (row : Delivery) (t : OutreachTables)
    → find (has_id row.id) t.deliveries ≡ some row
    → IsResent gen source now row t (resent gen source now row t)
unfolding superseded_tables replacement new_delivery new_batch project_batch supersede
resent-IsResent gen source now row t found = record {
  new = replacement gen row;
  olds = update (has_id row.id) (supersede now) t.deliveries;
  batch = new_batch gen source.template_id (row.creator_id ∷ []);
  replaces = record {
    same_creator = refl;
    same_content = refl;
    linked = refl;
    in_new_batch = refl;
    is_queued = refl;
    unanswered = refl;
    live = refl;
    no_times = (refl, refl, refl, refl);
    no_error = (refl, refl, refl);
    token_of_its_own = refl;
  };
  deliveries = refl;
  superseded =
      find-update (λ x. true) (has_id row.id) (supersede now) t.deliveries found (ground arith);
  others_kept = others-supersede row.id now t.deliveries;
  none_lost = length-supersede row.id now t.deliveries;
  batches = refl;
  batch_is = (refl, refl, refl, refl);
  rest_kept = (refl, refl);
  answer = (refl, refl, refl, refl);
}

-- The explicit resend succeeds. In consistent tables whose campaign and Match task are there, where the
-- delivery is found and is resendable (sent or failed, not superseded, and neither it nor its Creator
-- answered), `resend_delivery` returns: the delivery's batch is there and neither flush violates the
-- unique index on a Creator's current delivery. The delivery is then superseded and otherwise as it
-- was; a queued delivery with its content, linked to it and with a token of its own, stands in a new
-- batch with the template of the delivery's batch; and all other rows are as they were.
pub resend_delivery-ok :
    (gen : Generators) (now : Timestamp) (delivery_id : Uuid) (row : Delivery) (t : OutreachTables)
    → IsConsistent t
    → t.has_campaign ≡ true
    → find (has_id delivery_id) t.deliveries ≡ some row
    → is_resendable row t ≡ true
    → (source : SendBatch) × (find (of_batch row.send_batch_id) t.batches ≡ some source)
      × (out : SendBatchResponse × OutreachTables) × (resend_delivery gen true now delivery_id t
          ≡ ok out)
      × IsResent gen source now row t out
unfolding resend_delivery ◌>>=◌ require raise_if
resend_delivery-ok gen now delivery_id row t inv there found resendable =
    let (source, source_is) =
      owning_batch row.send_batch_id t.batches
        (all-find (is_owned t.batches) (has_id delivery_id) t.deliveries inv.owned found) in
    let again = found_again delivery_id t.deliveries found in
    (
      source,
      source_is,
      resent gen source now row t,
      rw found (
          raise_if-passes (not t.has_campaign) _ _ (ground arith)
          ∙ resend_row-ok gen source now row t again source_is resendable inv),
      resent-IsResent gen source now row t again,
    )
