-- ===== src/Outreach/Executor.antt =====
-- One attempt to send a delivery (`DeliveryExecutor.execute`, `_message` and the task `send_delivery`
-- of backend/app/workers/outreach_tasks.py).
--
-- Arguments are what the other parts answer in the attempt: the SMTP settings, the decryption of the
-- password, the response token and its digest, the placeholders of the links, the limiter and the
-- gateway. The outbox lists the deliveries for which `send` returned, latest first.
pub mod Refinement
pub mod Finished
use find_me_gamer.Prelude.{
  ℕ, Bool, true, false, not, ◌&&◌, ◌||◌, Option, none, some, List, [], ◌∷◌, String, leb, str_eq,
  if◌then◌else◌,
}
use find_me_gamer.Result.{retryable_delivery, smtp_permanent, Result, ok, err, settle}
use find_me_gamer.Match.Model.{Uuid, Timestamp, Clock}
use find_me_gamer.Outreach.Model.{OutreachTables}
use find_me_gamer.Outreach.Store.{
  DeliverySnapshot, DeliveryFailure, claim, release_for_retry, mark_sent, mark_failed,
  permanent_failure, preparation_failure, temporary_failure,
}
use find_me_gamer.Jobs.Retry.{RetryPolicy, delay}

-- What `_smtp_gateway.send` does: it returns, or raises SMTPPermanentError, SMTPTransientError or
-- another exception.
pub data SendOutcome : Type 0 where
  delivered rejected unavailable broken : SendOutcome

pub record Surroundings : Type 0 where
  pub has_settings : Bool  -- `load_smtp_settings` returns
  pub decrypts : Bool  -- `decrypt` returns
  pub derive_outreach_response_token : Uuid → String
  pub response_token_digest : String → String
  pub has_placeholders : String → Bool  -- `_substitute_response_links` returns
  pub limiter_grants : Bool  -- the loop around `acquire` ends with a grant, not with an exception
  pub send : Uuid → SendOutcome

pub record Attempt : Type 0 where
  pub result : Result (Unit {0})
  pub tables : OutreachTables
  pub outbox : List Uuid

-- A `mark_failed` or `mark_sent`, then the result that follows where it returns.
abbrev pub after_mark :
    Result (Unit {0}) → OutreachTables → List Uuid → Result (Bool × OutreachTables) → Attempt
after_mark result t outbox (ok (marked, u)) = record {
  result = result;
  tables = u;
  outbox = outbox;
}
after_mark result t outbox (err e) = record { result = err e; tables = t; outbox = outbox }

abbrev pub is_preparable : Surroundings → DeliverySnapshot → Bool
is_preparable env snapshot =
    str_eq (env.response_token_digest (env.derive_outreach_response_token snapshot.id))
      snapshot.response_token_digest
    && env.has_placeholders snapshot.content.rendered_html

abbrev pub sending : SendOutcome → Uuid → OutreachTables → List Uuid → Attempt
sending delivered id t outbox = record { result = ok tt; tables = t; outbox = id ∷ outbox }
sending rejected id t outbox = record { result = err smtp_permanent; tables = t; outbox = outbox }
sending unavailable id t outbox = record {
  result = err retryable_delivery;
  tables = t;
  outbox = outbox;
}
sending broken id t outbox = record { result = err retryable_delivery; tables = t; outbox = outbox }

-- The body of the `try` in `execute`, with `_message` before the limiter.
unfoldable pub try_sending :
    Surroundings → Clock → DeliverySnapshot → OutreachTables → List Uuid → Attempt
try_sending env clock snapshot t outbox =
    if not (env.has_settings && env.decrypts)
    then record { result = err retryable_delivery; tables = t; outbox = outbox }
    else if not (is_preparable env snapshot)
    then after_mark (err smtp_permanent) t outbox
        (mark_failed clock snapshot.id preparation_failure t)
    else if not env.limiter_grants
    then record { result = err retryable_delivery; tables = t; outbox = outbox }
    else sending (env.send snapshot.id) snapshot.id t outbox

-- The handlers and the last line of `execute`.
unfoldable pub conclude : Clock → Uuid → Result (Unit {0}) → OutreachTables → List Uuid → Attempt
conclude clock id (ok done) t outbox = after_mark (ok tt) t outbox (mark_sent clock id t)
conclude clock id (err smtp_permanent) t outbox =
    after_mark (ok tt) t outbox (mark_failed clock id permanent_failure t)
conclude clock id (err e) t outbox = record {
  result = err retryable_delivery;
  tables = t;
  outbox = outbox;
}

abbrev pub conclude_attempt : Clock → Uuid → Attempt → Attempt
unfolding conclude
conclude_attempt clock id a = conclude clock id a.result a.tables a.outbox

unfoldable pub execute_claimed :
    Surroundings
    → Clock
    → Uuid
    → OutreachTables
    → List Uuid
    → Result (Option DeliverySnapshot × OutreachTables)
    → Attempt
unfolding try_sending conclude
execute_claimed env clock id t outbox (err e) = record {
  result = err e;
  tables = t;
  outbox = outbox;
}
execute_claimed env clock id t outbox (ok (none, u)) = record {
  result = ok tt;
  tables = u;
  outbox = outbox;
}
execute_claimed env clock id t outbox (ok (some snapshot, u)) =
    let tried = try_sending env clock snapshot u outbox in
    conclude clock id tried.result tried.tables tried.outbox

unfoldable pub execute : Surroundings → Clock → Uuid → OutreachTables → List Uuid → Attempt
unfolding execute_claimed
execute env clock id t outbox = execute_claimed env clock id t outbox (claim clock id t)

-- What the task ends in: it is done, it is retried after a delay, or an exception leaves it.
pub data Ending : Type 0 where
  done lost : Ending
  retried : ℕ → Ending

abbrev pub exhausted : OutreachTables → Result (Bool × OutreachTables) → Ending × OutreachTables
exhausted t (ok (marked, u)) = (done, u)
exhausted t (err e) = (lost, t)

-- `send_delivery`
unfoldable pub end_attempt :
    RetryPolicy
    → ℕ
    → ℕ
    → Clock
    → Uuid
    → Result (Unit {0})
    → OutreachTables
    → Ending × OutreachTables
end_attempt policy retries jitter clock id (ok finished) t = (done, t)
end_attempt policy retries jitter clock id (err retryable_delivery) t =
    if leb policy.max_retries retries
    then exhausted t (mark_failed clock id temporary_failure t)
    else (retried (delay policy retries jitter), (release_for_retry id t).1)
end_attempt policy retries jitter clock id (err e) t = (lost, t)

unfoldable pub send_delivery :
    RetryPolicy
    → ℕ
    → ℕ
    → Surroundings
    → Clock
    → Uuid
    → OutreachTables
    → List Uuid
    → Ending × OutreachTables × List Uuid
unfolding execute end_attempt
send_delivery policy retries jitter env clock id t outbox =
    let attempt = execute env clock id t outbox in
    let (ending, u) = end_attempt policy retries jitter clock id attempt.result attempt.tables in
    (ending, u, attempt.outbox)
