-- ===== src/Jobs/Creation/Active.antt =====
-- At most one active Job for each target (backend/app/repositories/jobs.py, and the unique index
-- uq_analysis_jobs_active_target of backend/app/db/models/jobs.py).
use find_me_gamer.Prelude.{ℕ, ◌≤◌, ◌≡◌, ◌≢◌, true, false, none, some, List, String, find, count_if}
use find_me_gamer.Result.{integrity_error, value_error, Result, ok, err}
use find_me_gamer.Jobs.Model.{TargetType, AnalysisJob, is_active}
use find_me_gamer.Jobs.Creation.{JobCreationResult, answer, active_of, reuse_or_add}

-- The active Jobs of a target.
abbrev pub active_count : TargetType → String → List AnalysisJob → ℕ
active_count target_type canonical_id = count_if (active_of target_type canonical_id)

-- The unique index.
abbrev pub OneActive : List AnalysisJob → Type 0
OneActive jobs =
    (target_type : TargetType) (canonical_id : String)
    → active_count target_type canonical_id jobs ≤ 1

-- How a request may end: `ask` is the request as a function of the rows that its query sees.
pub data Served (ask : List AnalysisJob → Result (JobCreationResult × List AnalysisJob))
    (jobs : List AnalysisJob) : Result (JobCreationResult × List AnalysisJob) → Type 0 where
  served :
      (result : JobCreationResult) (news : List AnalysisJob)
      → OneActive news
      → Served ask jobs (ok (result, news))
  -- The index rejects the insertion, and the request, asked again of the rows of that moment, answers
  -- with the Job that won.
  conflicts :
      (winner : AnalysisJob)
      → ask jobs ≡ ok (answer (some winner) none false, jobs)
      → is_active winner.status ≡ true
      → Served ask jobs (err integrity_error)
  refused :
      ((seen : List AnalysisJob) → ask seen ≡ err value_error) → Served ask jobs (err value_error)

-- Asked of the rows that its insertion meets, a request does not conflict.
abbrev pub Serial :
    (List AnalysisJob → Result (JobCreationResult × List AnalysisJob)) → List AnalysisJob → Type 0
Serial ask jobs = ask jobs ≢ err integrity_error

module _ (job : AnalysisJob) (queued : is_active job.status ≡ true) (jobs : List AnalysisJob) where
  abbrev asked : List AnalysisJob → Result (JobCreationResult × List AnalysisJob)
  asked seen = reuse_or_add job (find (active_of job.target_type job.canonical_target_id) seen) jobs
