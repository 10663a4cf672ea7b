-- ===== src/Lib.antt =====
-- A verification library for FindMeGamer: the Match pipeline, Outreach and the Analysis Jobs.
--
-- A Match task compares one Game with every eligible Creator. It is created with a frozen snapshot of
-- its inputs, screened by one AI call, compared Creator by Creator, and ranked by one more AI call,
-- whose validated output is published in one transaction together with an outreach campaign. Celery
-- workers run these stages at least once each and in any order, so every operation locks the task's
-- rows and checks its stage first.
--
-- An Outreach campaign belongs to a published Match. Batches of deliveries are made for its Creators;
-- Celery workers claim a delivery, wait for the shared rate limiter, send the e-mail and record the
-- outcome; a Creator answers once through the link in the e-mail; a delivery is resent only explicitly,
-- by a new delivery that supersedes it. An Analysis Job analyses one Game or Creator: it is queued,
-- started, advanced through two boundaries and finalized with a profile, or it fails.
--
-- Files, and the code that they model:
--   Prelude, Result: lists, sets of identities, exceptions as values and transactions.
--   Match/Model, Match/Constraints: backend/app/db/models/match.py, the rows of one task
--     (`MatchTables`) and the CHECK constraints on them.
--   Match/Creation: backend/app/repositories/match.py, `create_locked_task` and eligibility.
--   Match/Screening: `load_locked_screening_input` and `apply_screening_output` of
--     backend/app/repositories/match.py, `ScreeningService` of backend/app/matching/screening.py.
--   Match/Pairwise/Brief, Claim, Apply, Failure, Service: backend/app/matching/pairwise.py.
--   Match/Pairwise/Aggregate: proofs on `recompute_pair_failure_task`.
--   Match/Worker/Codes, Prepare, Fail, Enqueue: backend/app/workers/match_tasks.py, the store and the
--     allowlist of failure codes. Match/Worker/Executor: `MatchTaskExecutor.advance`.
--     Match/Worker/Handler: `_handle_failure`; Fail/Returns and Match/Worker/Handling: proofs on it.
--   Match/Ranking/Output, Inputs, Publication: backend/app/matching/ranking.py and
--     backend/app/schemas/ai_match.py. Match/Ranking/Bounds, Sound: proofs on the output.
--   Match/Lifecycle/Moves: the transitions of a task with their guards, by the functions that update
--     its rows. Refinement: the operations against them. Invariant: what ties a task to its rows, and
--     the transitions. Runs: sequences of committed transactions and purges. Created, Guarantees,
--     Briefs, Reopened, Recovered: proofs on the life of a task.
--   Match/Retention: backend/app/matching/retention.py. Match/Retention/Purged: proofs.
--   Outreach/Model, Outreach/Constraints: backend/app/db/models/outreach.py, the rows of one campaign.
--   Outreach/Store, Outreach/Executor: backend/app/workers/outreach_tasks.py, the transitions of a
--     delivery, and the attempt of a worker as a function.
--   Outreach/Batches, Outreach/Responses, Outreach/Metrics, Outreach/RateLimit: the files of these
--     names in backend/app/outreach/, and `_metric_rows` of backend/app/api/routes/outreach.py.
--   Outreach/Invariant: what holds of a campaign's tables, and proofs that the transactions keep it.
--   Outreach/Once: the workers' steps between and around their transactions, as a relation, and
--     proofs on it. Outreach/Executor/Refinement: the attempt against the relation;
--     Outreach/Executor/Finished: what it leaves of its delivery.
--   Outreach/RateLimit/Rounding, Waiting, Granted and Outreach/Metrics/Unique, Balanced: proofs.
--   Jobs/Model, Jobs/Contract: backend/app/db/models/jobs.py, backend/app/core/analysis_job_contract.py.
--     Jobs/Contract/Checks: the CHECK constraints; Jobs/Contract/Agreement: proofs on the contract.
--   Jobs/Transitions, with Finalize and End: backend/app/analysis/service.py and
--     backend/app/workers/analysis_tasks.py. Jobs/Transitions/Steps, Ends, Progress, Completion: proofs
--     on the life of a Job.
--   Jobs/Creation: backend/app/repositories/jobs.py. Jobs/Creation/Active: proofs.
--   Jobs/Retry: `RetryPolicy` of backend/app/workers/analysis_tasks.py.
--   Match/Scenarios, Outreach/Scenarios, Jobs/Scenarios: the theorems at concrete rows.
--
-- How state and operations correspond. `MatchTables` holds the rows that belong to one task, since
-- every query of the modelled code selects by `match_task_id`. An operation takes these rows and
-- returns a `Result` with the new rows; a transaction that raises leaves the rows as they were
-- (`settle`). A row lock makes each transaction of a Match task one step, and a `Run` is any sequence of such steps.
-- `run` of a service puts its transactions together where no other worker comes between them.
-- `OutreachTables` holds the rows of one campaign in the same way, and a `World` adds the workers in
-- flight and the deliveries that were handed to the SMTP server. A Job's operations take its row. A
-- request for a Job reads the active Job without a lock: it takes the rows that its query sees and
-- those that its insertion meets, and the unique index may reject it. Of CHECK constraints on a Job a
-- test is true, false or NULL, as in SQL.
--
-- Parameters, each with what the code relies on: Pydantic's validation and dumps (`BriefSchema`,
-- `ScreeningSchema`, `LockedInputSchema`, `TextRules`), `str.casefold`, the shuffle of
-- `random.Random`, which permutes a list (`Shuffles`), and the snapshot of a Creator
-- (`CreationSchema`), the clock and the AI provider. A clock that returns no aware time is `none`.
-- Of Outreach: the composition of a batch (`Composition`), the generators of identities, tokens and
-- digests (`Generators`), and what the settings, the cipher, the limiter and the gateway answer in one
-- attempt (`Surroundings`). Of the Jobs: whether the profile of a succeeded Job is there, and what a
-- finalization is given (`Publication`).
--
-- Numbers: a UUID is its integer; a timestamp counts microseconds; a stored score or threshold counts
-- units of 0.0001, since the columns are Numeric(5, 4). The limiter's script computes with
-- floating-point numbers: its bucket counts units of the least of them, and the rounding of each result
-- is a parameter (`Doubles`) that the doubles of IEEE 754 meet. The one loop on fuel is the wait for
-- the limiter (`wait_for_turn`), whose fuel counts its rounds; all others are over rows.
--
-- Not modelled: the timestamp-order CHECK constraints and the change logs of backend/app/db/models/;
-- the other operations of the executor and the Celery entry points of
-- backend/app/workers/match_tasks.py and backend/app/workers/analysis_tasks.py; the choice of recipients and the rendering of templates in
-- backend/app/outreach/; the idempotency records and listings of backend/app/repositories/jobs.py; the
-- prompts, the analysis pipelines, the integrations, the HTTP API, the settings and the macOS client.
pub mod Prelude
pub mod Result
pub mod Match
pub mod Outreach
pub mod Jobs
