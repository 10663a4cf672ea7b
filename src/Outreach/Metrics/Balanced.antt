-- ===== src/Outreach/Metrics/Balanced.antt =====
-- The metrics of a campaign add up (`calculate_campaign_metrics` of backend/app/outreach/metrics.py on
-- the rows of `_metric_rows` of backend/app/api/routes/outreach.py).
use mathlib.Core.Path.{subst}
use find_me_gamer.Prelude.{
  ℕ, ◌+◌, ◌≤◌, ◌≡◌, ◌≢◌, refl, sym, ◌∙◌, ==_iff, inl, inr, Bool, true, false, not, ◌&&◌, ◌||◌, List,
  [], ◌∷◌, ◌==◌, all, any, count_if, length, arith, Bool-cases,
}
use find_me_gamer.Prelude.Sets.{member, distinct}
use find_me_gamer.Result.{ok, raise_if-passes}
use find_me_gamer.Match.Model.{Uuid}
use find_me_gamer.Outreach.Model.{
  ResponseState, no_response, accepted, declined, Delivery, CampaignCreatorResponse, same_response,
  is_sent, is_failed,
}
use find_me_gamer.Outreach.Metrics.{
  DeliveryProjection, CreatorMetrics, CampaignMetrics, note_row, add_row, add_rows, in_sent,
  in_accepted, in_declined, in_failed, in_conflict, responded, metrics_of, no_metrics,
  calculate_campaign_metrics, metric_rows, final_state,
}
use find_me_gamer.Outreach.Metrics.Unique.{
  creator_ids, selected_ids, flagged, sent_row, failed_row, answer_row, distinct-add_rows,
  distinct-selected, length-selected, flagged-add_rows, member-selected_flagged, flagged-and,
  flagged-failed,
}

-- An item's responses are those of the Creator's response row.
abbrev fits : List CampaignCreatorResponse → CreatorMetrics → Bool
fits responses c =
    (not c.has_accepted || same_response (final_state responses c.creator_id) accepted)
    && (not c.has_declined || same_response (final_state responses c.creator_id) declined)

one_response :
    (state : ResponseState) → same_response state accepted && same_response state declined ≡ false
one_response no_response = refl
one_response accepted = refl
one_response declined = refl

note_row-fits :
    (responses : List CampaignCreatorResponse) (row : DeliveryProjection) (c : CreatorMetrics)
    → row.response_state ≡ final_state responses c.creator_id
    → fits responses c ≡ true
    → fits responses (note_row row c) ≡ true
unfolding note_row
note_row-fits responses row c same h = rw (same) (ground (arith, h))

fits-add_row :
    (responses : List CampaignCreatorResponse) (row : DeliveryProjection)
    (creators : List CreatorMetrics)
    → row.response_state ≡ final_state responses row.creator_id
    → all (fits responses) creators ≡ true
    → all (fits responses) (add_row row creators) ≡ true
unfolding add_row
fits-add_row responses row [] same h =
    ground (arith, note_row-fits responses row (no_metrics row.creator_id) same refl)
fits-add_row responses row (c ∷ cs) same h = elim (Bool-cases (c.creator_id == row.creator_id)) [
  | inl here ↦
      let same_creator : row.creator_id ≡ c.creator_id =
        sym ((==_iff c.creator_id row.creator_id).0 here) in
      rw here (
        ground (
          arith,
          note_row-fits responses row c
              (subst (λ id. row.response_state ≡ final_state responses id) same_creator same),
        ))
  | inr elsewhere ↦ rw elsewhere (ground (arith, fits-add_row responses row cs same))
]

fits-add_rows :
    (responses : List CampaignCreatorResponse) (deliveries : List Delivery)
    (creators : List CreatorMetrics)
    → all (fits responses) creators ≡ true
    → all (fits responses) (add_rows (metric_rows deliveries responses) creators) ≡ true
unfolding add_rows metric_rows
fits-add_rows responses [] creators h = h
fits-add_rows responses (row ∷ rows) creators h =
    fits-add_rows responses rows _ (fits-add_row responses _ creators refl h)

no_conflict :
    (responses : List CampaignCreatorResponse) (creators : List CreatorMetrics)
    → all (fits responses) creators ≡ true
    → any in_conflict creators ≡ false
no_conflict responses [] h = refl
no_conflict responses (c ∷ cs) h =
    ground (arith, no_conflict responses cs, one_response (final_state responses c.creator_id))

responded-le :
    (creators : List CreatorMetrics)
    → any in_conflict creators ≡ false
    → responded creators ≤ count_if in_sent creators
responded-le [] h = omega arith
responded-le (c ∷ cs) h = ground (arith, responded-le cs)

-- A number counts exactly the Creators that pass a test, each once.
pub record Counts (n : ℕ) (test : Uuid → Bool) : Type 0 where
  ids : List Uuid
  counted : n ≡ length ids
  unique : distinct ids ≡ true
  exact : (a : Uuid) → member a ids ≡ test a

-- What the metrics of a campaign say of its rows.
pub record IsMetrics (rows : List DeliveryProjection) (m : CampaignMetrics) : Type 0 where
  sent : Counts m.sent_creators (λ a. any (sent_row a) rows)
  accepting : Counts m.accepted (λ a. any (sent_row a) rows && any (answer_row accepted a) rows)
  declining : Counts m.declined (λ a. any (sent_row a) rows && any (answer_row declined a) rows)
  failing : Counts m.failed (λ a.
      any (failed_row a) rows
      && not (any (sent_row a) rows)
      && not (any (answer_row accepted a) rows || any (answer_row declined a) rows))
  balanced : m.accepted + m.declined + m.no_response ≡ m.sent_creators
  unrated : m.sent_creators ≡ 0 → m.response_rate ≡ (0, 1)
  rated : m.sent_creators ≢ 0 → m.response_rate ≡ (m.accepted + m.declined, m.sent_creators)

selected-Counts :
    (p : CreatorMetrics → Bool) (test : Uuid → Bool) (creators : List CreatorMetrics)
    → distinct (creator_ids creators) ≡ true
    → ((a : Uuid) → flagged p a creators ≡ test a)
    → Counts (count_if p creators) test
selected-Counts p test creators keys passes = record {
  ids = selected_ids p creators;
  counted = sym (length-selected p creators);
  unique = distinct-selected p creators keys;
  exact = λ a. member-selected_flagged p a creators ∙ passes a;
}

or_false : (b : Bool) → (b || false) ≡ b
or_false true = refl
or_false false = refl

-- What the rows of a Creator set.
module _ (rows : List DeliveryProjection) (a : Uuid) where
  sent_flag : flagged (λ c. c.sent) a (add_rows rows []) ≡ any (sent_row a) rows
  unfolding note_row
  sent_flag =
      flagged-add_rows (λ c. c.sent) (λ row. is_sent row.send_state) a rows [] (λ id. refl)
        (λ row c. refl)
      ∙ or_false _

  failed_flag : flagged (λ c. c.current_failed) a (add_rows rows []) ≡ any (failed_row a) rows
  unfolding note_row
  failed_flag =
      flagged-add_rows (λ c. c.current_failed) (λ row. row.is_current && is_failed row.send_state) a
        rows [] (λ id. refl) (λ row c. refl)
      ∙ or_false _

  accepted_flag :
      flagged (λ c. c.has_accepted) a (add_rows rows []) ≡ any (answer_row accepted a) rows
  unfolding note_row
  accepted_flag =
      flagged-add_rows (λ c. c.has_accepted) (λ row. same_response row.response_state accepted) a
        rows [] (λ id. refl) (λ row c. refl)
      ∙ or_false _

  declined_flag :
      flagged (λ c. c.has_declined) a (add_rows rows []) ≡ any (answer_row declined a) rows
  unfolding note_row
  declined_flag =
      flagged-add_rows (λ c. c.has_declined) (λ row. same_response row.response_state declined) a
        rows [] (λ id. refl) (λ row c. refl)
      ∙ or_false _

metrics_of-IsMetrics :
    (rows : List DeliveryProjection)
    → any in_conflict (add_rows rows []) ≡ false
    → IsMetrics rows (metrics_of (add_rows rows []))
unfolding metrics_of
metrics_of-IsMetrics rows apart =
    let creators : List CreatorMetrics = add_rows rows [] in
    let keys = distinct-add_rows rows [] refl in
    record {
      sent = selected-Counts in_sent _ creators keys (sent_flag rows);
      accepting = selected-Counts in_accepted _ creators keys (λ a.
          flagged-and (λ c. c.sent) (λ c. c.has_accepted) a creators keys
          ∙ ap2 (sent_flag rows a) (accepted_flag rows a));
      declining = selected-Counts in_declined _ creators keys (λ a.
          flagged-and (λ c. c.sent) (λ c. c.has_declined) a creators keys
          ∙ ap2 (sent_flag rows a) (declined_flag rows a));
      failing = selected-Counts in_failed _ creators keys (λ a.
          flagged-failed a creators keys
          ∙ simp
              (failed_flag rows a, sent_flag rows a, accepted_flag rows a, declined_flag rows a));
      balanced = omega (arith, responded-le creators apart);
      unrated = λ nobody. rw ((==_iff (count_if in_sent creators) 0).1 nobody);
      rated = λ some_sent. ground arith;
    }
  where
    ap2 : {x y u v : Bool} → x ≡ u → y ≡ v → (x && y) ≡ (u && v)
    ap2 p q = rw (p, q)

-- The metrics of a campaign are always computed: on the rows that the route makes of a campaign's
-- deliveries and responses `calculate_campaign_metrics` never raises. The Creators counted as sent to
-- are exactly those with a sent delivery; as accepted or declined, those of them with that answer; as
-- failed, those with a current failed delivery, no sent one and no answer; each of them once. The
-- answers and their lack add up to the sent, and the rate is the answered of the sent, or 0 of 1.
pub calculate_campaign_metrics-ok :
    (deliveries : List Delivery) (responses : List CampaignCreatorResponse)
    → (m : CampaignMetrics) × (calculate_campaign_metrics (metric_rows deliveries responses) ≡ ok m)
      × IsMetrics (metric_rows deliveries responses) m
unfolding calculate_campaign_metrics
calculate_campaign_metrics-ok deliveries responses =
    let rows : List DeliveryProjection = metric_rows deliveries responses in
    let apart =
      no_conflict responses (add_rows rows []) (fits-add_rows responses deliveries [] refl) in
    (metrics_of (add_rows rows []), raise_if-passes _ _ _ apart, metrics_of-IsMetrics rows apart)
