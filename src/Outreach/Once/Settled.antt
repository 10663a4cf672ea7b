-- ===== src/Outreach/Once/Settled.antt =====
-- Which transactions can make a delivery claimable (`DeliveryTaskStore.claim` of
-- backend/app/workers/outreach_tasks.py).
use find_me_gamer.Prelude.{
  ◌≡◌, Bool, true, false, not, ◌&&◌, Option, none, some, List, [], ◌∷◌, ◌++◌, ◌==◌, find, update,
  is_none, arith,
}
use find_me_gamer.Match.Model.{Uuid}
use find_me_gamer.Outreach.Model.{Delivery, OutreachTables, is_queued, has_id}

-- What `claim` asks of a row.
abbrev pub claimable : Delivery → Bool
claimable row = is_none row.superseded_at && is_queued row.send_state

abbrev pub is_settled : Option Delivery → Bool
is_settled none = false
is_settled (some row) = not (claimable row)

-- The delivery is there, and `claim` would return nothing.
abbrev pub settled : Uuid → OutreachTables → Bool
settled id t = is_settled (find (has_id id) t.deliveries)

module _ (id : Uuid) (f : Delivery → Delivery) (keeps_id : (x : Delivery) → (f x).id ≡ x.id) where
  pub settled-update :
      (d : Uuid) (rows : List Delivery) {row : Delivery}
      → find (has_id id) rows ≡ some row
      → claimable (f row) ≡ false
      → is_settled (find (has_id d) rows) ≡ true
      → is_settled (find (has_id d) (update (has_id id) f rows)) ≡ true
  settled-update d [] found stays h = h
  settled-update d (x ∷ xs) {row} found stays h =
      ground (arith, settled-update d xs {row = row}, keeps_id x)

  pub settled-others :
      (d : Uuid) (rows : List Delivery)
      → (id == d) ≡ false
      → is_settled (find (has_id d) rows) ≡ true
      → is_settled (find (has_id d) (update (has_id id) f rows)) ≡ true
  settled-others d [] differs h = h
  settled-others d (x ∷ xs) differs h = ground (arith, settled-others d xs, keeps_id x)

  pub settled-changed :
      (rows : List Delivery) {row : Delivery}
      → find (has_id id) rows ≡ some row
      → claimable (f row) ≡ false
      → is_settled (find (has_id id) (update (has_id id) f rows)) ≡ true
  settled-changed [] found stays = cc
  settled-changed (x ∷ xs) {row} found stays =
      ground (arith, settled-changed xs {row = row}, keeps_id x)

pub settled-append :
    (d : Uuid) (rows news : List Delivery)
    → is_settled (find (has_id d) rows) ≡ true
    → is_settled (find (has_id d) (rows ++ news)) ≡ true
settled-append d [] news h = absurd (ground arith)
settled-append d (x ∷ xs) news h = ground (arith, settled-append d xs news)
