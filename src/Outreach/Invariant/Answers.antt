-- ===== src/Outreach/Invariant/Answers.antt =====
-- `confirm_response` (backend/app/outreach/responses.py) on consistent tables.
use mathlib.Core.Path.{subst}
use find_me_gamer.Prelude.{
  ◌≡◌, refl, inl, inr, true, false, not, ◌||◌, Option, none, some, List, [], ◌∷◌, String, ◌==◌,
  ==_iff, all, find, update, is_none, all-find, all-update, all_mono, arith, Bool-cases, if-holds,
  str_eq,
}
use find_me_gamer.Result.{returned, Ensures-raise_if}
use find_me_gamer.Match.Model.{Uuid, Timestamp}
use find_me_gamer.Outreach.Model.{
  ResponseState, no_response, accepted, declined, Delivery, SendBatch, CampaignCreatorResponse,
  OutreachTables, is_final, is_no_response, same_response, has_id, states_of,
}
use find_me_gamer.Outreach.Constraints.{
  delivery_check, smtp_error_check, send_state_check, response_state_check,
}
use find_me_gamer.Outreach.Responses.{
  ResponseConfirmation, of_creator, keep_final, final_response, is_eligible, answered, answer,
  record_answer, confirm_tables, confirm_open, confirm_row, confirm_located, confirm_response,
  delivery_for_digest,
}
use find_me_gamer.Outreach.Invariant.{
  IsConsistent, batch_agrees, is_owned, response_agrees, has_answer,
}
use find_me_gamer.Outreach.Invariant.Changes.{
  states_of-update_same, current_creators-update, found_again,
}
use find_me_gamer.Outreach.Invariant.Sending.{Keeps}

answered-check :
    (choice : ResponseState) (now : Timestamp) (row : Delivery)
    → delivery_check row ≡ true
    → is_final choice ≡ true
    → is_none row.superseded_at ≡ true
    → delivery_check (answered choice now row) ≡ true
unfolding delivery_check smtp_error_check send_state_check response_state_check answered
answered-check choice now row h final_choice live = ground arith

pub same_states-agree :
    (rows news : List Delivery) (batches : List SendBatch)
    → ((id : Uuid) → states_of id news ≡ states_of id rows)
    → all (batch_agrees rows) batches ≡ true
    → all (batch_agrees news) batches ≡ true
unfolding batch_agrees
same_states-agree rows news batches same agree =
    all_mono (batch_agrees rows) (batch_agrees news) batches (λ b h. rw (same b.id) h) agree

same_response_refl : (a : ResponseState) → same_response a a ≡ true
same_response_refl no_response = refl
same_response_refl accepted = refl
same_response_refl declined = refl

not_final :
    (state : ResponseState) (old : Option CampaignCreatorResponse)
    → keep_final old ≡ none
    → (is_no_response state || has_answer state old) ≡ true
    → is_no_response state ≡ true
not_final no_response old open_answer h = refl
not_final accepted none open_answer h = cc
not_final accepted (some r) open_answer h = ground arith
not_final declined none open_answer h = cc
not_final declined (some r) open_answer h = ground arith

module _ (row : Delivery) (choice : ResponseState) (now : Timestamp) where
  -- The Creator's response after the answer, and those of the others.
  answer_found :
      (old : Option CampaignCreatorResponse) (rows : List CampaignCreatorResponse)
      → find (of_creator row.creator_id) rows ≡ old
      → has_answer choice (find (of_creator row.creator_id) (record_answer row choice now old rows))
        ≡ true
  unfolding record_answer answer
  answer_found none [] is_old = ground (arith, same_response_refl choice)
  answer_found none (x ∷ xs) is_old = ground (arith, answer_found none xs)
  answer_found (some r) [] is_old = cc
  answer_found (some r) (x ∷ xs) is_old =
      ground (arith, answer_found (some r) xs, same_response_refl choice)

  others_found :
      (creator_id : Uuid) (old : Option CampaignCreatorResponse)
      (rows : List CampaignCreatorResponse)
      → (row.creator_id == creator_id) ≡ false
      → find (of_creator creator_id) (record_answer row choice now old rows)
        ≡ find (of_creator creator_id) rows
  unfolding record_answer answer
  others_found creator_id none [] differs = ground arith
  others_found creator_id none (x ∷ xs) differs = ground (arith, others_found creator_id none xs)
  others_found creator_id (some r) [] differs = refl
  others_found creator_id (some r) (x ∷ xs) differs =
      ground (arith, others_found creator_id (some r) xs)

  -- Before a Creator's answer none of the Creator's deliveries has one.
  unanswered :
      (x : Delivery) (rows : List CampaignCreatorResponse)
      → keep_final (find (of_creator row.creator_id) rows) ≡ none
      → row.creator_id ≡ x.creator_id
      → response_agrees rows x ≡ true
      → is_no_response x.response_state ≡ true
  unanswered x rows open_answer same h =
      not_final x.response_state (find (of_creator x.creator_id) rows)
        (subst (λ id. keep_final (find (of_creator id) rows) ≡ none) same open_answer) h

  still_agrees :
      (x : Delivery) (rows : List CampaignCreatorResponse)
      → keep_final (find (of_creator row.creator_id) rows) ≡ none
      → response_agrees rows x ≡ true
      → response_agrees
          (record_answer row choice now (find (of_creator row.creator_id) rows) rows)
          x
        ≡ true
  still_agrees x rows open_answer h = elim (Bool-cases (row.creator_id == x.creator_id)) [
    | inl same ↦
        rw (unanswered x rows open_answer ((==_iff row.creator_id x.creator_id).0 same) h) refl
    | inr differs ↦
        rw (others_found x.creator_id (find (of_creator row.creator_id) rows) rows differs) h
  ]

pub confirm_tables-IsConsistent :
    (row : Delivery) (choice : ResponseState) (now : Timestamp) (id : Uuid) (t : OutreachTables)
    → find (has_id id) t.deliveries ≡ some row
    → is_final choice ≡ true
    → is_none row.superseded_at ≡ true
    → final_response row.creator_id t ≡ none
    → IsConsistent t
    → IsConsistent (confirm_tables row choice now t)
unfolding confirm_tables final_response answered
confirm_tables-IsConsistent row choice now id t found final_choice live open_answer inv =
    let again : find (has_id row.id) t.deliveries ≡ some row = found_again id t.deliveries found in
    let f : Delivery → Delivery = answered choice now in
    let rows : List CampaignCreatorResponse =
      record_answer row choice now (find (of_creator row.creator_id) t.responses) t.responses in
    record {
      checked = all-update delivery_check (has_id row.id) f t.deliveries inv.checked again (
          answered-check choice now row
            (all-find delivery_check (has_id row.id) t.deliveries inv.checked again) final_choice
            live);
      agree =
          same_states-agree t.deliveries (update (has_id row.id) f t.deliveries) t.batches
            (λ batch_id.
              states_of-update_same f (has_id row.id) batch_id t.deliveries again refl refl)
            inv.agree;
      owned =
          all-update (is_owned t.batches) (has_id row.id) f t.deliveries inv.owned again
            (all-find (is_owned t.batches) (has_id row.id) t.deliveries inv.owned again);
      current =
          rw (current_creators-update f (has_id row.id) t.deliveries again refl refl) inv.current;
      answers =
          all-update (response_agrees rows) (has_id row.id) f t.deliveries
            (all_mono (response_agrees t.responses) (response_agrees rows) t.deliveries
              (λ x h. still_agrees row choice now x t.responses open_answer h) inv.answers)
            again
            (unfold answered in
              ground (
                arith,
                answer_found row choice now (find (of_creator row.creator_id) t.responses)
                    t.responses,
              ));
    }

confirm_open-IsConsistent :
    (row : Delivery) (choice : ResponseState) (now : Timestamp) (id : Uuid) (t : OutreachTables)
    (response : Option CampaignCreatorResponse)
    → final_response row.creator_id t ≡ response
    → find (has_id id) t.deliveries ≡ some row
    → is_final choice ≡ true
    → IsConsistent t
    → IsConsistent (confirm_open row choice now response t).1
unfolding is_eligible confirm_open
confirm_open-IsConsistent row choice now id t (some response) is_response found final_choice inv =
    inv
confirm_open-IsConsistent row choice now id t none is_response found final_choice inv =
    if-holds (λ (out : ResponseConfirmation × OutreachTables). IsConsistent out.1)
      (not (is_eligible row)) (λ closed. inv)
      (λ eligible.
        confirm_tables-IsConsistent row choice now id t found final_choice (ground arith)
          is_response inv)

confirm_row-IsConsistent :
    (digest : String) (choice : ResponseState) (now : Timestamp) (id : Uuid) (row : Option Delivery)
    (t : OutreachTables)
    → find (has_id id) t.deliveries ≡ row
    → is_final choice ≡ true
    → IsConsistent t
    → IsConsistent (confirm_row digest choice now row t).1
unfolding confirm_row
confirm_row-IsConsistent digest choice now id none t found final_choice inv = inv
confirm_row-IsConsistent digest choice now id (some row) t found final_choice inv =
    if-holds (λ (out : ResponseConfirmation × OutreachTables). IsConsistent out.1)
      (not (str_eq digest row.response_token_digest)) (λ differs. inv)
      (λ same.
        confirm_open-IsConsistent row choice now id t (final_response row.creator_id t) refl found
          final_choice inv)

confirm_located-IsConsistent :
    (digest : String) (choice : ResponseState) (now : Timestamp) (located : Option Delivery)
    (t : OutreachTables)
    → is_final choice ≡ true
    → IsConsistent t
    → IsConsistent (confirm_located digest choice now located t).1
unfolding confirm_located
confirm_located-IsConsistent digest choice now none t final_choice inv = inv
confirm_located-IsConsistent digest choice now (some located) t final_choice inv =
    if-holds (λ (out : ResponseConfirmation × OutreachTables). IsConsistent out.1)
      (not t.has_campaign) (λ missing. inv)
      (λ there.
        confirm_row-IsConsistent digest choice now located.id
          (find (has_id located.id) t.deliveries) t refl final_choice inv)

pub confirm_response-Keeps :
    (digest : String) (choice : ResponseState) (now : Timestamp) (t : OutreachTables)
    → IsConsistent t
    → Keeps (confirm_response digest choice now t)
unfolding confirm_response
confirm_response-Keeps digest choice now t inv =
    Ensures-raise_if (not (is_final choice)) _ _ (λ is_final_choice. returned (
      confirm_located-IsConsistent digest choice now (delivery_for_digest digest t) t (ground arith)
        inv))
