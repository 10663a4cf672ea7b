-- ===== src/Outreach/Metrics/Unique.antt =====
-- The metrics of backend/app/outreach/metrics.py count Creators, each of them once.
use mathlib.Core.Path.{subst}
use find_me_gamer.Prelude.{
  ◌≡◌, refl, inl, inr, Bool, true, false, not, ◌&&◌, ◌||◌, List, [], ◌∷◌, map, ◌==◌, filter, any,
  count_if, length, arith, Bool-cases, ==_iff,
}
use find_me_gamer.Prelude.Sets.{member, distinct}
use find_me_gamer.Match.Model.{Uuid}
use find_me_gamer.Outreach.Model.{ResponseState, is_sent, is_failed, same_response}
use find_me_gamer.Outreach.Metrics.{
  DeliveryProjection, CreatorMetrics, note_row, add_row, add_rows, no_metrics, in_failed,
}

abbrev pub creator_ids : List CreatorMetrics → List Uuid
creator_ids = map (λ (c : CreatorMetrics). c.creator_id)

-- The Creators that a set of the source holds.
abbrev pub selected_ids : (CreatorMetrics → Bool) → List CreatorMetrics → List Uuid
selected_ids p creators = creator_ids (filter p creators)

member-add_row :
    (a : Uuid) (row : DeliveryProjection) (creators : List CreatorMetrics)
    → member a (creator_ids (add_row row creators))
      ≡ ((a == row.creator_id) || member a (creator_ids creators))
unfolding add_row note_row
member-add_row a row [] = ground arith
member-add_row a row (c ∷ cs) = ground (arith, member-add_row a row cs)

pub member-add_rows :
    (a : Uuid) (rows : List DeliveryProjection) (creators : List CreatorMetrics)
    → member a (creator_ids (add_rows rows creators)) ≡ (
        any (λ (row : DeliveryProjection). row.creator_id == a) rows
        || member a (creator_ids creators))
unfolding add_rows
member-add_rows a [] creators = refl
member-add_rows a (row ∷ rows) creators =
    ground (arith, member-add_rows a rows (add_row row creators), member-add_row a row creators)

distinct-add_row :
    (row : DeliveryProjection) (creators : List CreatorMetrics)
    → distinct (creator_ids creators) ≡ true
    → distinct (creator_ids (add_row row creators)) ≡ true
unfolding add_row note_row
distinct-add_row row [] h = refl
distinct-add_row row (c ∷ cs) h =
    ground (arith, distinct-add_row row cs, member-add_row c.creator_id row cs)

pub distinct-add_rows :
    (rows : List DeliveryProjection) (creators : List CreatorMetrics)
    → distinct (creator_ids creators) ≡ true
    → distinct (creator_ids (add_rows rows creators)) ≡ true
unfolding add_rows
distinct-add_rows [] creators h = h
distinct-add_rows (row ∷ rows) creators h =
    distinct-add_rows rows (add_row row creators) (distinct-add_row row creators h)

member-selected :
    (p : CreatorMetrics → Bool) (a : Uuid) (creators : List CreatorMetrics)
    → member a (selected_ids p creators) ≡ true
    → member a (creator_ids creators) ≡ true
member-selected p a [] h = h
member-selected p a (c ∷ cs) h = ground (arith, member-selected p a cs)

pub distinct-selected :
    (p : CreatorMetrics → Bool) (creators : List CreatorMetrics)
    → distinct (creator_ids creators) ≡ true
    → distinct (selected_ids p creators) ≡ true
distinct-selected p [] h = refl
distinct-selected p (c ∷ cs) h =
    ground (arith, distinct-selected p cs, member-selected p c.creator_id cs)

pub length-selected :
    (p : CreatorMetrics → Bool) (creators : List CreatorMetrics)
    → length (selected_ids p creators) ≡ count_if p creators
length-selected p [] = refl
length-selected p (c ∷ cs) = ground (arith, length-selected p cs)

-- Whether the item of a Creator has a flag.
abbrev pub flagged : (CreatorMetrics → Bool) → Uuid → List CreatorMetrics → Bool
flagged flag a creators = any (λ (c : CreatorMetrics). c.creator_id == a && flag c) creators

abbrev pub sent_row : Uuid → DeliveryProjection → Bool
sent_row a row = row.creator_id == a && is_sent row.send_state

abbrev pub failed_row : Uuid → DeliveryProjection → Bool
failed_row a row = row.creator_id == a && (row.is_current && is_failed row.send_state)

abbrev pub answer_row : ResponseState → Uuid → DeliveryProjection → Bool
answer_row state a row = row.creator_id == a && same_response row.response_state state

-- A flag that every row of the Creator may set.
module _ (flag : CreatorMetrics → Bool) (test : DeliveryProjection → Bool) where
  flagged-add_row :
      (a : Uuid) (row : DeliveryProjection) (creators : List CreatorMetrics)
      → flag (no_metrics row.creator_id) ≡ false
      → ((c : CreatorMetrics) → flag (note_row row c) ≡ (flag c || test row))
      → flagged flag a (add_row row creators)
        ≡ ((row.creator_id == a && test row) || flagged flag a creators)
  unfolding add_row
  flagged-add_row a row [] clear sets =
      rw (sets (no_metrics row.creator_id), clear) (unfold note_row in ground arith)
  flagged-add_row a row (c ∷ cs) clear sets = elim (Bool-cases (c.creator_id == row.creator_id)) [
    | inl here ↦ rw (here, sets c) (unfold note_row in ground arith)
    | inr elsewhere ↦ rw elsewhere (ground (arith, flagged-add_row a row cs clear sets))
  ]

  pub flagged-add_rows :
      (a : Uuid) (rows : List DeliveryProjection) (creators : List CreatorMetrics)
      → ((id : Uuid) → flag (no_metrics id) ≡ false)
      → ((row : DeliveryProjection) (c : CreatorMetrics)
          → flag (note_row row c) ≡ (flag c || test row))
      → flagged flag a (add_rows rows creators) ≡ (
          any (λ (row : DeliveryProjection). row.creator_id == a && test row) rows
          || flagged flag a creators)
  unfolding add_rows
  flagged-add_rows a [] creators clear sets = refl
  flagged-add_rows a (row ∷ rows) creators clear sets = ground (
    arith,
    flagged-add_rows a rows (add_row row creators) clear sets,
    flagged-add_row a row creators (clear row.creator_id) (sets row),
  )

not_flagged :
    (flag : CreatorMetrics → Bool) (a : Uuid) (creators : List CreatorMetrics)
    → member a (creator_ids creators) ≡ false
    → flagged flag a creators ≡ false
not_flagged flag a [] h = refl
not_flagged flag a (c ∷ cs) h = ground (arith, not_flagged flag a cs)

-- The Creators of a set are those whose item passes its test.
pub member-selected_flagged :
    (p : CreatorMetrics → Bool) (a : Uuid) (creators : List CreatorMetrics)
    → member a (selected_ids p creators) ≡ flagged p a creators
member-selected_flagged p a [] = refl
member-selected_flagged p a (c ∷ cs) = ground (arith, member-selected_flagged p a cs)

-- A Creator has one item, so a test of two flags is the two tests.
pub flagged-and :
    (f g : CreatorMetrics → Bool) (a : Uuid) (creators : List CreatorMetrics)
    → distinct (creator_ids creators) ≡ true
    → flagged (λ c. f c && g c) a creators ≡ flagged f a creators && flagged g a creators
flagged-and f g a [] unique = refl
flagged-and f g a (c ∷ cs) unique = elim (Bool-cases (c.creator_id == a)) [
  | inl here ↦
      let same : c.creator_id ≡ a = (==_iff c.creator_id a).0 here in
      let away : member a (creator_ids cs) ≡ false =
        subst (λ id. member id (creator_ids cs) ≡ false) same (ground arith) in
      rw
        (
          here,
          not_flagged f a cs away,
          not_flagged g a cs away,
          not_flagged (λ c. f c && g c) a cs away,
        )
        (ground arith)
  | inr elsewhere ↦ rw elsewhere (flagged-and f g a cs (ground arith))
]

pub flagged-failed :
    (a : Uuid) (creators : List CreatorMetrics)
    → distinct (creator_ids creators) ≡ true
    → flagged in_failed a creators
      ≡ flagged (λ c. c.current_failed) a creators
        && not (flagged (λ c. c.sent) a creators)
        && not
            (flagged (λ c. c.has_accepted) a creators || flagged (λ c. c.has_declined) a creators)
flagged-failed a [] unique = refl
flagged-failed a (c ∷ cs) unique = elim (Bool-cases (c.creator_id == a)) [
  | inl here ↦
      let same : c.creator_id ≡ a = (==_iff c.creator_id a).0 here in
      let away : member a (creator_ids cs) ≡ false =
        subst (λ id. member id (creator_ids cs) ≡ false) same (ground arith) in
      rw
        (
          here,
          not_flagged in_failed a cs away,
          not_flagged (λ c. c.current_failed) a cs away,
          not_flagged (λ c. c.sent) a cs away,
          not_flagged (λ c. c.has_accepted) a cs away,
          not_flagged (λ c. c.has_declined) a cs away,
        )
        (ground arith)
  | inr elsewhere ↦ rw elsewhere (flagged-failed a cs (ground arith))
]
