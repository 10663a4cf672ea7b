-- ===== src/Outreach/Invariant/Runs.antt =====
-- The tables of a campaign through all the transactions of backend/app/outreach/ and
-- backend/app/workers/outreach_tasks.py.
use find_me_gamer.Prelude.{◌≡◌, Bool, false, Option, List, String}
use find_me_gamer.Prelude.Sets.{member}
use find_me_gamer.Result.{ok, Ensures-result}
use find_me_gamer.Match.Model.{Uuid, Timestamp, Clock}
use find_me_gamer.Outreach.Model.{ResponseState, OutreachTables, batch_ids}
use find_me_gamer.Outreach.Store.{
  DeliveryFailure, DeliverySnapshot, claim, release_for_retry, mark_sent, mark_failed,
}
use find_me_gamer.Outreach.Responses.{ResponseConfirmation, confirm_response}
use find_me_gamer.Outreach.Batches.{
  Generators, Composition, SendBatchResponse, create_send_batch, resend_delivery,
}
use find_me_gamer.Outreach.Invariant.{IsConsistent}
use find_me_gamer.Outreach.Invariant.Sending.{
  claim-Keeps, mark_sent-Keeps, mark_failed-Keeps, release_for_retry-IsConsistent,
}
use find_me_gamer.Outreach.Invariant.Answers.{confirm_response-Keeps}
use find_me_gamer.Outreach.Invariant.Batches.{create_send_batch-Keeps, resend_delivery-Keeps}

-- A committed transaction. The identity that is generated for a batch is new.
pub data Change : OutreachTables → OutreachTables → Type 0 where
  claims :
      {t u : OutreachTables} (clock : Clock) (id : Uuid) (snapshot : Option DeliverySnapshot)
      → claim clock id t ≡ ok (snapshot, u)
      → Change t u
  releases : {t : OutreachTables} (id : Uuid) → Change t (release_for_retry id t).1
  marks_sent :
      {t u : OutreachTables} (clock : Clock) (id : Uuid) (marked : Bool)
      → mark_sent clock id t ≡ ok (marked, u)
      → Change t u
  marks_failed :
      {t u : OutreachTables} (clock : Clock) (id : Uuid) (failure : DeliveryFailure) (marked : Bool)
      → mark_failed clock id failure t ≡ ok (marked, u)
      → Change t u
  confirms :
      {t u : OutreachTables} (digest : String) (choice : ResponseState) (now : Timestamp)
      (response : ResponseConfirmation)
      → confirm_response digest choice now t ≡ ok (response, u)
      → Change t u
  creates :
      {t u : OutreachTables} (gen : Generators) (composition : Composition)
      (creator_ids : List Uuid) (response : SendBatchResponse)
      → member gen.batch_id (batch_ids t.batches) ≡ false
      → create_send_batch gen composition creator_ids t ≡ ok (response, u)
      → Change t u
  resends :
      {t u : OutreachTables} (gen : Generators) (has_task : Bool) (now : Timestamp) (id : Uuid)
      (response : SendBatchResponse)
      → member gen.batch_id (batch_ids t.batches) ≡ false
      → resend_delivery gen has_task now id t ≡ ok (response, u)
      → Change t u

pub data Run (t : OutreachTables) : OutreachTables → Type 0 where
  here : Run t t
  next : {u v : OutreachTables} → Run t u → Change u v → Run t v

Change-IsConsistent : {t u : OutreachTables} → Change t u → IsConsistent t → IsConsistent u
Change-IsConsistent {t} (claims clock id snapshot is_new) inv =
    Ensures-result (claim-Keeps clock id t inv) is_new
Change-IsConsistent {t} (releases id) inv = release_for_retry-IsConsistent id t inv
Change-IsConsistent {t} (marks_sent clock id marked is_new) inv =
    Ensures-result (mark_sent-Keeps clock id t inv) is_new
Change-IsConsistent {t} (marks_failed clock id failure marked is_new) inv =
    Ensures-result (mark_failed-Keeps clock id failure t inv) is_new
Change-IsConsistent {t} (confirms digest choice now response is_new) inv =
    Ensures-result (confirm_response-Keeps digest choice now t inv) is_new
Change-IsConsistent {t} (creates gen composition creator_ids response unknown is_new) inv =
    Ensures-result (create_send_batch-Keeps gen composition creator_ids t unknown inv) is_new
Change-IsConsistent {t} (resends gen has_task now id response unknown is_new) inv =
    Ensures-result (resend_delivery-Keeps gen has_task now id t unknown inv) is_new

-- Whatever transactions run on a campaign, in whatever order: tables that are consistent stay
-- consistent. Every delivery passes the CHECK constraints of its row, every batch has the state that
-- its deliveries give it, every Creator has at most one delivery that is not superseded, and every
-- answered delivery agrees with its Creator's response. The identities generated for batches are new.
pub Run-IsConsistent : {t u : OutreachTables} → Run t u → IsConsistent t → IsConsistent u
Run-IsConsistent here inv = inv
Run-IsConsistent (next run change) inv = Change-IsConsistent change (Run-IsConsistent run inv)
