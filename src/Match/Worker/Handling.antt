-- ===== src/Match/Worker/Handling.antt =====
-- The outcome of an exception that a Match worker meets
-- (`_failure_shape` and `_handle_failure` of backend/app/workers/match_tasks.py).
use find_me_gamer.Prelude.{
  ℕ, ◌≤◌, ◌<◌, ◌≡◌, refl, Bool, true, false, ◌&&◌, Option, none, some, ◌==◌, ltb, String, str_eq,
  str_eq_refl, opt_eq, find, inl, inr, if◌then◌else◌, arith, Bool-cases,
}
use find_me_gamer.Result.{Failure, database_error, ok, err, ◌>>=◌, raise_if}
use find_me_gamer.Match.Model.{Uuid, Timestamp, Clock, MatchTables}
use find_me_gamer.Match.Pairwise.Brief.{of_creator, require_uuid}
use find_me_gamer.Match.Worker.Codes.{
  PairwiseTerminalFailure, is_listed, retryable_codes, permanent_codes, permanent_match_failure,
  failure_shape, make_failure, failure_code,
}
use find_me_gamer.Match.Worker.Fail.{fail_pair, fail_task}
use find_me_gamer.Match.Worker.Fail.Returns.{fail_found-returns, fail_found_task-returns}
use find_me_gamer.Match.Worker.Handler.{
  Handled, retry, ends, fails_safely, store_failure, conclude_failure, handle_made, handle_failure,
}

internal_listed : is_listed "match_internal_error" retryable_codes ≡ true
unfolding is_listed retryable_codes
internal_listed = refl

-- The code is listed, and its list decides whether a retry is offered.
unfoldable pub is_allowlisted : PairwiseTerminalFailure → Bool
is_allowlisted failure =
    if failure.retryable
    then is_listed failure.code retryable_codes
    else is_listed failure.code permanent_codes && str_eq failure.message permanent_match_failure

failure_shape-allowlisted : (code : String) → is_allowlisted (failure_shape code) ≡ true
unfolding is_allowlisted failure_shape
failure_shape-allowlisted code = elim (Bool-cases (is_listed code retryable_codes)) [
  | inl listed ↦ rw listed listed
  | inr unlisted ↦ rw unlisted (elim (Bool-cases (is_listed code permanent_codes)) [
    | inl listed ↦ rw listed (rw listed)
    | inr unknown ↦ rw unknown internal_listed
  ])
]

failure_shape_idem : (code : String) → failure_shape (failure_shape code).code ≡ failure_shape code
unfolding failure_shape
failure_shape_idem code = elim (Bool-cases (is_listed code retryable_codes)) [
  | inl listed ↦ rw listed (rw listed)
  | inr unlisted ↦ rw unlisted (elim (Bool-cases (is_listed code permanent_codes)) [
    | inl listed ↦ rw listed (rw unlisted (rw listed))
    | inr unknown ↦ rw unknown (rw internal_listed)
  ])
]

-- The constructor's check accepts what is its own shape.
make_failure-shape :
    (failure : PairwiseTerminalFailure)
    → failure_shape failure.code ≡ failure
    → make_failure failure ≡ ok failure
unfolding make_failure
make_failure-shape failure same =
    rw same (rw (str_eq_refl failure.code) (rw (str_eq_refl failure.message) (ground arith)))

-- How the handling of an exception may end.
pub data IsHandled (retries max_retries : ℕ) (available : Bool) (clock : Clock) (task_id : Uuid)
    (creator_id : Option Uuid) (t : MatchTables) : Handled × MatchTables → Type 0 where
  retried :
      (code : String)
      → is_listed code retryable_codes ≡ true
      → retries < max_retries
      → IsHandled retries max_retries available clock task_id creator_id t (retry code, t)
  recorded :
      (failure : PairwiseTerminalFailure) (changed : Bool) (u : MatchTables)
      → is_allowlisted failure ≡ true
      → (failure.retryable ≡ true → max_retries ≤ retries)
      → available ≡ true
      → store_failure available clock task_id creator_id failure t ≡ ok (changed, u)
      → IsHandled retries max_retries available clock task_id creator_id t (ends, u)
  database_lost :
      available ≡ false
      → max_retries ≤ retries
      → IsHandled retries max_retries available clock task_id creator_id t
          (fails_safely "match_database_unavailable", t)

module _ (now : Timestamp) (failure : PairwiseTerminalFailure) where
  -- With an aware clock and identities that are not zero the store accepts every report.
  store-returns :
      (task_id : Uuid) (creator_id : Option Uuid) (t : MatchTables)
      → (task_id == 0) ≡ false
      → opt_eq (λ a b. a == b) creator_id (some 0) ≡ false
      → (out : Bool × MatchTables) × (store_failure true (some now) task_id creator_id failure t
          ≡ ok out)
  unfolding store_failure fail_task fail_pair require_uuid ◌>>=◌ raise_if
  store-returns task_id none t named creator_named =
      rw named (fail_found_task-returns now failure t.task t)
  store-returns task_id (some creator_id) t named creator_named =
      rw (named, creator_named)
        (fail_found-returns now failure creator_id t.task (find (of_creator creator_id) t.pairs) t
          refl)

store-lost :
    (clock : Clock) (task_id : Uuid) (creator_id : Option Uuid) (failure : PairwiseTerminalFailure)
    (t : MatchTables)
    → store_failure false clock task_id creator_id failure t ≡ err database_error
unfolding store_failure
store-lost clock task_id none failure t = refl
store-lost clock task_id (some creator_id) failure t = refl

database_listed : is_listed "match_database_unavailable" retryable_codes ≡ true
unfolding is_listed retryable_codes
database_listed = refl

module _ (retries max_retries : ℕ) (now : Timestamp) (task_id : Uuid) (creator_id : Option Uuid)
    (t : MatchTables) (named : (task_id == 0) ≡ false)
    (creator_named : opt_eq (λ a b. a == b) creator_id (some 0) ≡ false) where
  abbrev Ending : Bool → Handled × MatchTables → Type 0
  Ending available = IsHandled retries max_retries available (some now) task_id creator_id t

  conclude-IsHandled :
      (available : Bool) (failure : PairwiseTerminalFailure)
      → is_allowlisted failure ≡ true
      → (failure.retryable ≡ true → max_retries ≤ retries)
      → Ending available (
          conclude_failure retries max_retries t
            (store_failure available (some now) task_id creator_id failure t))
  unfolding conclude_failure
  conclude-IsHandled true failure listed used_up =
      let ((changed, u), stored) =
        store-returns now failure task_id creator_id t named creator_named in
      rw stored (recorded failure changed u listed used_up refl stored)
  conclude-IsHandled false failure listed used_up =
      rw (store-lost (some now) task_id creator_id failure t)
        (elim (Bool-cases (ltb retries max_retries)) [
          | inl below ↦ rw below (retried _ database_listed (ground arith))
          | inr at_maximum ↦ rw at_maximum (database_lost refl (ground arith))
        ])

  made-IsHandled :
      (available : Bool) (failure : PairwiseTerminalFailure)
      → is_allowlisted failure ≡ true
      → Ending available
          (handle_made retries max_retries available (some now) task_id creator_id t (ok failure))
  unfolding handle_made
  made-IsHandled available failure listed =
      elim (Bool-cases (failure.retryable && ltb retries max_retries)) [
        | inl again ↦
            rw again (retried failure.code (unfold is_allowlisted in ground arith) (ground arith))
        | inr final ↦ rw final (conclude-IsHandled available failure listed (λ h. ground arith))
      ]

-- Whatever exception a worker meets, however often it was retried and whether the database is
-- available, at an aware clock and for identities that are not zero: the handling either retries under
-- a retryable code below the maximum and leaves the rows as they were; or the store accepts an
-- allowlisted failure, retryable only where the retries are used up; or the database is lost at the
-- maximum, the safe error for that is raised and the rows are as they were. It never ends with another
-- exception.
pub handle_failure-bounded :
    (retries max_retries : ℕ) (available : Bool) (now : Timestamp) (task_id : Uuid)
    (creator_id : Option Uuid) (error : Failure) (t : MatchTables)
    → (task_id == 0) ≡ false
    → opt_eq (λ a b. a == b) creator_id (some 0) ≡ false
    → IsHandled retries max_retries available
        (some now)
        task_id
        creator_id
        t
        (handle_failure retries max_retries available (some now) task_id creator_id error t)
unfolding handle_failure
handle_failure-bounded retries max_retries available now task_id creator_id error t named
      creator_named =
    let code = failure_code error in
    rw (make_failure-shape (failure_shape code) (failure_shape_idem code)) (
      made-IsHandled retries max_retries now task_id creator_id t named creator_named available
        (failure_shape code) (failure_shape-allowlisted code))
