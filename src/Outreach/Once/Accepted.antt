-- ===== src/Outreach/Once/Accepted.antt =====
-- How often `send` returns for one delivery, in a run of the workers of
-- backend/app/workers/outreach_tasks.py.
use mathlib.Core.Path.{subst}
use find_me_gamer.Prelude.{
  ==_iff, ℕ, ◌+◌, ◌≤◌, ◌≡◌, refl, inl, inr, Bool, true, false, not, ◌&&◌, some, List, [], ◌∷◌, ◌++◌,
  ◌==◌, count_if, if◌then◌else◌, arith, Bool-cases,
}
use find_me_gamer.Result.{Ensures-result}
use find_me_gamer.Match.Model.{Uuid}
use find_me_gamer.Outreach.Model.{OutreachTables}
use find_me_gamer.Outreach.Store.{
  preparation_failure, permanent_failure, temporary_failure, release_for_retry,
}
use find_me_gamer.Outreach.Once.{
  Stage, claimed, rejected, is_refusal, Flight, World, in_stage, Step, claims, sends, stops,
  cannot_prepare, fails, marks, releases, exhausts, lost, creates, resends, confirms, Run, start,
  next,
}
use find_me_gamer.Outreach.Once.Settled.{settled}
use find_me_gamer.Outreach.Once.Transactions.{
  Preserves, claim-Claims, mark_sent-Preserves, mark_failed-Preserves, release_for_retry-others,
  create_send_batch-Preserves, resend_delivery-Preserves, confirm_response-Preserves,
}

abbrev is_accepted : Stage → Bool
is_accepted Stage.accepted = true
is_accepted _ = false

-- A worker that has not sent the delivery yet, and one that has.
abbrev unsent_of : Uuid → Flight → Bool
unsent_of d flight = flight.delivery_id == d && not (is_accepted flight.stage)

abbrev sent_of : Uuid → Flight → Bool
sent_of d flight = flight.delivery_id == d && is_accepted flight.stage

-- The workers with one delivery, and the times that it was sent.
abbrev unsent : Uuid → List Flight → ℕ
unsent d = count_if (unsent_of d)

abbrev sent : Uuid → List Flight → ℕ
sent d = count_if (sent_of d)

abbrev pub times : Uuid → List Uuid → ℕ
times d = count_if (λ x. x == d)

-- At most one worker has the delivery, none that may still send it once it was sent, and nobody can
-- claim it in the meantime or after.
record IsSafe (d : Uuid) (w : World) : Type 0 where
  single : unsent d w.flights + sent d w.flights ≤ 1
  once : unsent d w.flights + times d w.outbox ≤ 1
  held : settled d w.tables ≡ false → unsent d w.flights + sent d w.flights + times d w.outbox ≡ 0

count_if-middle {ℓ} :
    {A : Type ℓ} (p : A → Bool) (before after : List A) (x : A)
    → count_if p (before ++ (x ∷ after)) ≡ (if p x then 1 else 0) + count_if p (before ++ after)
count_if-middle p [] after x = refl
count_if-middle p (y ∷ ys) after x = ground (arith, count_if-middle p ys after x)

refusal_unsent : (stage : Stage) → is_refusal stage ≡ true → is_accepted stage ≡ false
refusal_unsent Stage.claimed h = cc
refusal_unsent Stage.accepted h = cc
refusal_unsent Stage.rejected h = refl
refusal_unsent Stage.raised h = refl

module _ (d : Uuid) where
  -- A transaction that is not of a worker in flight.
  elsewhere :
      (w : World) (u : OutreachTables)
      → Preserves w.tables u
      → IsSafe d w
      → IsSafe d (record w { tables = u })
  elsewhere w u kept inv = record {
    single = inv.single;
    once = inv.once;
    held = λ free. inv.held (ground (arith, kept d));
  }

  module _ (t u : OutreachTables) (before after : List Flight) (outbox : List Uuid) where
    -- A worker is done, with a transaction that keeps what is settled.
    leaves :
        (flight : Flight)
        → (settled d t ≡ true → settled d u ≡ true)
        → IsSafe d (record { tables = t; flights = before ++ (flight ∷ after); outbox = outbox })
        → IsSafe d (record { tables = u; flights = before ++ after; outbox = outbox })
    leaves flight kept inv =
        let all_unsent = count_if-middle (unsent_of d) before after flight in
        let all_sent = count_if-middle (sent_of d) before after flight in
        let single = inv.single in
        let once = inv.once in
        record {
          single = omega (arith, all_unsent, all_sent, single);
          once = omega (arith, all_unsent, once);
          held = λ free. omega (arith, all_unsent, all_sent, inv.held (ground arith));
        }

    -- A worker that has not sent the delivery goes on to another stage, in which it never does.
    stops_at :
        (id : Uuid) (stage : Stage)
        → is_accepted stage ≡ false
        → (settled d t ≡ true → settled d u ≡ true)
        → IsSafe d (record {
          tables = t;
          flights = before ++ (in_stage claimed id ∷ after);
          outbox = outbox;
        })
        → IsSafe d (record {
          tables = u;
          flights = before ++ (in_stage stage id ∷ after);
          outbox = outbox;
        })
    stops_at id stage unsent_stage kept inv =
        let all_unsent = count_if-middle (unsent_of d) before after (in_stage claimed id) in
        let all_sent = count_if-middle (sent_of d) before after (in_stage claimed id) in
        let new_unsent = count_if-middle (unsent_of d) before after (in_stage stage id) in
        let new_sent = count_if-middle (sent_of d) before after (in_stage stage id) in
        let single = inv.single in
        let once = inv.once in
        record {
          single = ground arith;
          once = ground arith;
          held = λ free. let nobody = inv.held (ground arith) in ground arith;
        }

  sent_now :
      (t : OutreachTables) (before after : List Flight) (id : Uuid) (outbox : List Uuid)
      → IsSafe d (record {
        tables = t;
        flights = before ++ (in_stage claimed id ∷ after);
        outbox = outbox;
      })
      → IsSafe d (record {
        tables = t;
        flights = before ++ (in_stage Stage.accepted id ∷ after);
        outbox = id ∷ outbox;
      })
  sent_now t before after id outbox inv =
      let all_unsent = count_if-middle (unsent_of d) before after (in_stage claimed id) in
      let all_sent = count_if-middle (sent_of d) before after (in_stage claimed id) in
      let new_unsent = count_if-middle (unsent_of d) before after (in_stage Stage.accepted id) in
      let new_sent = count_if-middle (sent_of d) before after (in_stage Stage.accepted id) in
      let single = inv.single in
      let once = inv.once in
      record {
        single = ground arith;
        once = ground arith;
        held = λ free. let nobody = inv.held free in ground arith;
      }

  released :
      (t : OutreachTables) (before after : List Flight) (id : Uuid) (outbox : List Uuid)
      → IsSafe d (record {
        tables = t;
        flights = before ++ (in_stage Stage.raised id ∷ after);
        outbox = outbox;
      })
      → IsSafe d (record {
        tables = (release_for_retry id t).1;
        flights = before ++ after;
        outbox = outbox;
      })
  released t before after id outbox inv =
      let all_unsent = count_if-middle (unsent_of d) before after (in_stage Stage.raised id) in
      let all_sent = count_if-middle (sent_of d) before after (in_stage Stage.raised id) in
      let single = inv.single in
      let once = inv.once in
      elim (Bool-cases (id == d)) [
        | inl same ↦ record {
          single = ground arith;
          once = ground arith;
          held = λ free. ground arith;
        }
        | inr differs ↦
            leaves t (release_for_retry id t).1 before after outbox (in_stage Stage.raised id)
              (release_for_retry-others id t d differs) inv
      ]

  claimed_now :
      (w : World) (id : Uuid) (u : OutreachTables)
      → Preserves w.tables u
      → settled id w.tables ≡ false
      → settled id u ≡ true
      → IsSafe d w
      → IsSafe d (record w { tables = u; flights = in_stage claimed id ∷ w.flights })
  claimed_now w id u kept was is_now inv =
      let single = inv.single in
      let once = inv.once in
      elim (Bool-cases (id == d)) [
        | inl same ↦
            let here : id ≡ d = (==_iff id d).0 same in
            let nobody = inv.held (subst (λ i. settled i w.tables ≡ false) here was) in
            let now_settled = subst (λ i. settled i u ≡ true) here is_now in
            record {
              single = ground arith;
              once = ground arith;
              held = λ free. absurd (ground arith);
            }
        | inr differs ↦ record {
          single = ground arith;
          once = ground arith;
          held = λ free. let nobody = inv.held (ground (arith, kept d)) in ground arith;
        }
      ]

  Step-IsSafe : {w v : World} → Step w v → IsSafe d w → IsSafe d v
  Step-IsSafe (claims w now id snapshot u claimed_is) inv =
      let (kept, took) = Ensures-result (claim-Claims now id w.tables) claimed_is in
      let (was, is_now) = took snapshot refl in claimed_now w id u kept was is_now inv
  Step-IsSafe (sends t before after id outbox) inv = sent_now t before after id outbox inv
  Step-IsSafe (stops t before after id outbox stage refusal) inv =
      stops_at t t before after outbox id stage (refusal_unsent stage refusal) (λ h. h) inv
  Step-IsSafe (cannot_prepare t u now marked before after id outbox marked_is) inv =
      stops_at t u before after outbox id rejected refl
        (Ensures-result (mark_failed-Preserves (some now) id preparation_failure t) marked_is d) inv
  Step-IsSafe (fails t u now marked before after id outbox marked_is) inv =
      leaves t u before after outbox (in_stage rejected id)
        (Ensures-result (mark_failed-Preserves (some now) id permanent_failure t) marked_is d) inv
  Step-IsSafe (marks t u now marked before after id outbox marked_is) inv =
      leaves t u before after outbox (in_stage Stage.accepted id)
        (Ensures-result (mark_sent-Preserves (some now) id t) marked_is d) inv
  Step-IsSafe (releases t before after id outbox) inv = released t before after id outbox inv
  Step-IsSafe (exhausts t u now marked before after id outbox marked_is) inv =
      leaves t u before after outbox (in_stage Stage.raised id)
        (Ensures-result (mark_failed-Preserves (some now) id temporary_failure t) marked_is d) inv
  Step-IsSafe (lost t before after flight outbox) inv =
      leaves t t before after outbox flight (λ h. h) inv
  Step-IsSafe (creates w gen composition creator_ids response u created) inv =
      elsewhere w u
        (Ensures-result (create_send_batch-Preserves gen composition creator_ids w.tables) created)
        inv
  Step-IsSafe (resends w gen has_task now id response u resent_is) inv =
      elsewhere w u
        (Ensures-result (resend_delivery-Preserves gen has_task now id w.tables) resent_is) inv
  Step-IsSafe (confirms w digest choice now response u confirmed) inv =
      elsewhere w u
        (Ensures-result (confirm_response-Preserves digest choice now w.tables) confirmed) inv

  Run-IsSafe : {t : OutreachTables} {w : World} → Run t w → IsSafe d w
  Run-IsSafe start = record { single = omega arith; once = omega arith; held = λ free. refl }
  Run-IsSafe (next run step) = Step-IsSafe step (Run-IsSafe run)

-- No delivery is sent twice. Whatever the workers, their retries and the other parts do, and in
-- whatever order: from any tables with no worker in flight, the SMTP gateway's `send` returns at most
-- once for each delivery.
pub Run-sends_once : {t : OutreachTables} {w : World} (d : Uuid) → Run t w → times d w.outbox ≤ 1
Run-sends_once d run = let once = (Run-IsSafe d run).once in omega arith
