-- ===== src/Outreach/Executor/Refinement.antt =====
-- The attempt as a function (`send_delivery` of backend/app/workers/outreach_tasks.py) is made of the
-- steps of the workers' relation.
use mathlib.Core.Path.{subst}
use find_me_gamer.Prelude.{
  ℕ, ◌≤◌, ◌≡◌, refl, sym, Bool, not, ◌&&◌, ◌||◌, Option, none, some, List, [], ◌∷◌, ==_iff, leb,
  find, find-passes, is_some, if-holds,
}
use find_me_gamer.Result.{
  retryable_delivery, smtp_permanent, Result, ok, err, ◌>>=◌, require, raise_if, Ensures, returned,
  Ensures-if, Ensures-result,
}
use find_me_gamer.Match.Model.{Uuid, Timestamp}
use find_me_gamer.Outreach.Model.{Delivery, OutreachTables, has_id, is_queued}
use find_me_gamer.Outreach.Store.{
  DeliverySnapshot, claim_row, claim, finish_sending, fail_sending, settle_row, is_open, is_allowed,
  mark_sent, mark_failed, permanent_failure, preparation_failure, temporary_failure, aware_utc,
}
use find_me_gamer.Jobs.Retry.{RetryPolicy}
use find_me_gamer.Outreach.Once.{
  World, Flight, in_stage, claimed, Step, claims, sends, stops, cannot_prepare, fails, marks,
  releases, exhausts, Run, next,
}
use find_me_gamer.Outreach.Once.{Stage}
use find_me_gamer.Outreach.Once.Accepted.{times, Run-sends_once}
use find_me_gamer.Outreach.Executor.{
  Surroundings, Attempt, SendOutcome, delivered, rejected, unavailable, broken, after_mark,
  is_preparable, sending, try_sending, conclude, execute_claimed, execute, Ending, end_attempt,
  send_delivery,
}

-- A transaction with an aware clock returns.
Returns {ℓ} : {A : Type ℓ} → Result A → Type ℓ
Returns {A = A} r = (a : A) × (r ≡ ok a)

settle_row-Returns :
    (now : Timestamp) (change : Timestamp → Delivery → Delivery) (row : Option Delivery)
    (t : OutreachTables)
    → Returns (settle_row (some now) change row t)
unfolding Returns settle_row aware_utc require ◌>>=◌
settle_row-Returns now change none t = (_, refl)
settle_row-Returns now change (some row) t =
    if-holds (λ r. (a : Bool × OutreachTables) × (r ≡ ok a)) (not (is_open row))
      (λ closed. (_, refl)) (λ open_row. (_, refl))

claim_row-Returns :
    (now : Timestamp) (row : Option Delivery) (t : OutreachTables)
    → Returns (claim_row (some now) row t)
unfolding Returns claim_row aware_utc require ◌>>=◌
claim_row-Returns now none t = (_, refl)
claim_row-Returns now (some row) t =
    if-holds (λ r. (a : Option DeliverySnapshot × OutreachTables) × (r ≡ ok a))
      (is_some row.superseded_at || not (is_queued row.send_state)) (λ skipped. (_, refl))
      (λ open_row. (_, refl))

-- A claim without a snapshot changes nothing; one with a snapshot has the delivery's identity.
abbrev ClaimOf : Uuid → OutreachTables → Option DeliverySnapshot × OutreachTables → Type 0
ClaimOf id t out =
    (out.0 ≡ none → out.1 ≡ t) × ((s : DeliverySnapshot) → out.0 ≡ some s → s.id ≡ id)

claim_row-ClaimOf :
    (now : Timestamp) (id : Uuid) (row : Option Delivery) (t : OutreachTables)
    → find (has_id id) t.deliveries ≡ row
    → Ensures (ClaimOf id t) (claim_row (some now) row t)
unfolding claim_row aware_utc require ◌>>=◌
claim_row-ClaimOf now id none t found = returned ((λ e. refl), (λ s e. cc))
claim_row-ClaimOf now id (some row) t found =
    Ensures-if (is_some row.superseded_at || not (is_queued row.send_state)) _ _
      (λ skipped. returned ((λ e. refl), (λ s e. cc)))
      (λ open_row. returned (
        (λ e. cc),
        (λ (s : DeliverySnapshot)
              (e : some (record {
                id = row.id;
                content = row.content;
                response_token_digest = row.response_token_digest;
              })
                ≡ some s).
            let same : row.id ≡ id =
              (==_iff row.id id).0 (find-passes (has_id id) t.deliveries found) in
            cc),
      ))

pub data Steps : World → World → Type 0 where
  stay : {w : World} → Steps w w
  more : {w v u : World} → Step w v → Steps v u → Steps w u

module _ (policy : RetryPolicy) (retries jitter : ℕ) (now : Timestamp) (id : Uuid)
    (flights : List Flight) where
  world : OutreachTables → List Flight → List Uuid → World
  world t fs outbox = record { tables = t; flights = fs; outbox = outbox }

  -- The world after the handlers of `execute` and of the task.
  final : Attempt → World
  unfolding world
  final a =
      let c = conclude (some now) id a.result a.tables a.outbox in
      world (end_attempt policy retries jitter (some now) id c.result c.tables).1 flights c.outbox

  was_sent :
      (t : OutreachTables) (outbox : List Uuid)
      → Steps
          (world t (in_stage Stage.accepted id ∷ flights) outbox)
          (final (record { result = ok tt; tables = t; outbox = outbox }))
  unfolding world final conclude end_attempt Returns mark_sent
  was_sent t outbox =
      let ((marked, u), is_new) =
        settle_row-Returns now finish_sending (find (has_id id) t.deliveries) t in
      rw is_new (more (marks t u now marked [] flights id outbox is_new) stay)

  was_rejected :
      (t : OutreachTables) (outbox : List Uuid)
      → Steps
          (world t (in_stage Stage.rejected id ∷ flights) outbox)
          (final (record { result = err smtp_permanent; tables = t; outbox = outbox }))
  unfolding world final conclude end_attempt Returns mark_failed ◌>>=◌ raise_if is_allowed
  was_rejected t outbox =
      let ((marked, u), is_new) =
        settle_row-Returns now (fail_sending permanent_failure) (find (has_id id) t.deliveries) t in
      rw is_new (more (fails t u now marked [] flights id outbox is_new) stay)

  was_raised :
      (t : OutreachTables) (outbox : List Uuid)
      → Steps
          (world t (in_stage Stage.raised id ∷ flights) outbox)
          (final (record { result = err retryable_delivery; tables = t; outbox = outbox }))
  unfolding world final conclude end_attempt Returns mark_failed ◌>>=◌ raise_if is_allowed
  was_raised t outbox =
      if-holds
        (λ (out : Ending × OutreachTables).
          Steps (world t (in_stage Stage.raised id ∷ flights) outbox) (world out.1 flights outbox))
        (leb policy.max_retries retries)
        (λ last.
          let ((marked, u), is_new) =
            settle_row-Returns now (fail_sending temporary_failure) (find (has_id id) t.deliveries)
              t in
          rw is_new (more (exhausts t u now marked [] flights id outbox is_new) stay))
        (λ again. more (releases t [] flights id outbox) stay)

  unpreparable :
      (snapshot : DeliverySnapshot) (t : OutreachTables) (outbox : List Uuid)
      → snapshot.id ≡ id
      → Steps (world t (in_stage claimed id ∷ flights) outbox) (
          final (
            after_mark
              (err smtp_permanent)
              t
              outbox
              (mark_failed (some now) snapshot.id preparation_failure t)))
  unfolding world Returns mark_failed ◌>>=◌ raise_if is_allowed
  unpreparable snapshot t outbox same =
      let ((marked, u), is_new) =
        settle_row-Returns now (fail_sending preparation_failure) (find (has_id id) t.deliveries)
          t in
      subst
        (λ i. Steps (world t (in_stage claimed id ∷ flights) outbox) (
          final (
            after_mark (err smtp_permanent) t outbox
              (mark_failed (some now) i preparation_failure t))))
        (sym same)
        (rw is_new (
          more (cannot_prepare t u now marked [] flights id outbox is_new) (was_rejected u outbox)))

  at_gateway :
      (outcome : SendOutcome) (t : OutreachTables) (outbox : List Uuid)
      → Steps (world t (in_stage claimed id ∷ flights) outbox) (final (sending outcome id t outbox))
  unfolding world
  at_gateway delivered t outbox = more (sends t [] flights id outbox) (was_sent t (id ∷ outbox))
  at_gateway rejected t outbox =
      more (stops t [] flights id outbox Stage.rejected refl) (was_rejected t outbox)
  at_gateway unavailable t outbox =
      more (stops t [] flights id outbox Stage.raised refl) (was_raised t outbox)
  at_gateway broken t outbox =
      more (stops t [] flights id outbox Stage.raised refl) (was_raised t outbox)

  -- What follows a claim.
  after_claim :
      (env : Surroundings) (snapshot : DeliverySnapshot) (t : OutreachTables) (outbox : List Uuid)
      → snapshot.id ≡ id
      → Steps
          (world t (in_stage claimed id ∷ flights) outbox)
          (final (try_sending env (some now) snapshot t outbox))
  unfolding try_sending world
  after_claim env snapshot t outbox same =
      let Reaches : Attempt → Type 0 =
        λ a. Steps (world t (in_stage claimed id ∷ flights) outbox) (final a) in
      let retries_later : Reaches
          (record { result = err retryable_delivery; tables = t; outbox = outbox }) =
        more (stops t [] flights id outbox Stage.raised refl) (was_raised t outbox) in
      if-holds Reaches (not (env.has_settings && env.decrypts)) (λ unset. retries_later)
        (λ set.
          if-holds Reaches (not (is_preparable env snapshot))
            (λ unprepared. unpreparable snapshot t outbox same)
            (λ prepared.
              if-holds Reaches (not env.limiter_grants) (λ limited. retries_later)
                (λ granted.
                  subst (λ i. Reaches (sending (env.send snapshot.id) i t outbox)) (sym same)
                    (at_gateway (env.send snapshot.id) t outbox))))

  -- The world after the task.
  ended : Attempt → World
  unfolding world
  ended c =
      world (end_attempt policy retries jitter (some now) id c.result c.tables).1 flights c.outbox

  from_claim :
      (env : Surroundings) (t : OutreachTables) (outbox : List Uuid)
      (out : Option DeliverySnapshot × OutreachTables)
      → claim (some now) id t ≡ ok out
      → Steps (world t flights outbox) (ended (execute_claimed env (some now) id t outbox (ok out)))
  unfolding world ended final execute_claimed end_attempt claim
  from_claim env t outbox (none, u) is_out =
      let (unchanged, same) =
        Ensures-result (claim_row-ClaimOf now id (find (has_id id) t.deliveries) t refl) is_out in
      subst (λ v. Steps (world t flights outbox) (world v flights outbox)) (sym (unchanged refl))
        stay
  from_claim env t outbox (some snapshot, u) is_out =
      let (unchanged, same) =
        Ensures-result (claim_row-ClaimOf now id (find (has_id id) t.deliveries) t refl) is_out in
      more (claims (world t flights outbox) now id snapshot u is_out)
        (after_claim env snapshot u outbox (same snapshot refl))

  attempt-Steps :
      (env : Surroundings) (t : OutreachTables) (outbox : List Uuid)
      → Steps (world t flights outbox) (ended (execute env (some now) id t outbox))
  unfolding execute claim Returns
  attempt-Steps env t outbox =
      let (out, is_out) = claim_row-Returns now (find (has_id id) t.deliveries) t in
      subst
        (λ r. Steps (world t flights outbox) (ended (execute_claimed env (some now) id t outbox r)))
        (sym is_out) (from_claim env t outbox out is_out)

-- The task is made of the steps of the relation, where its clock is aware.
pub send_delivery-Steps :
    (policy : RetryPolicy) (retries jitter : ℕ) (env : Surroundings) (now : Timestamp) (id : Uuid)
    (t : OutreachTables) (flights : List Flight) (outbox : List Uuid)
    → Steps
        (record { tables = t; flights = flights; outbox = outbox })
        (record {
          tables = (send_delivery policy retries jitter env (some now) id t outbox).1;
          flights = flights;
          outbox = (send_delivery policy retries jitter env (some now) id t outbox).2;
        })
unfolding send_delivery world ended
send_delivery-Steps policy retries jitter env now id t flights outbox =
    attempt-Steps policy retries jitter now id flights env t outbox

Run-Steps : {t : OutreachTables} {w v : World} → Run t w → Steps w v → Run t v
Run-Steps run stay = run
Run-Steps run (more step steps) = Run-Steps (next run step) steps

-- The task never sends a delivery again. In any run of the workers, at any point of it: if the task
-- `send_delivery` then runs for a delivery, with an aware clock, whatever the settings, the limiter and
-- the gateway answer and however often the task was retried, no delivery stands twice in the outbox.
pub send_delivery-sends_once :
    {origin : OutreachTables} (policy : RetryPolicy) (retries jitter : ℕ) (env : Surroundings)
    (now : Timestamp) (id : Uuid) (w : World) (d : Uuid)
    → Run origin w
    → times d (send_delivery policy retries jitter env (some now) id w.tables w.outbox).2 ≤ 1
send_delivery-sends_once policy retries jitter env now id w d run = Run-sends_once d (
    Run-Steps run
      (send_delivery-Steps policy retries jitter env now id w.tables w.flights w.outbox))
