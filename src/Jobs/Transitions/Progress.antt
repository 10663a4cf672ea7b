-- ===== src/Jobs/Transitions/Progress.antt =====
-- The life of an Analysis Job (backend/app/analysis/service.py and
-- backend/app/workers/analysis_tasks.py).
use mathlib.Core.Path.{subst}
use find_me_gamer.Prelude.{ℕ, ◌≡◌, sym, ◌∙◌, Bool, true, false, Option, List, arith}
use find_me_gamer.Result.{ok, Ensures-result}
use find_me_gamer.Match.Model.{Uuid, Clock}
use find_me_gamer.Jobs.Model.{TargetType, AnalysisJob, is_active}
use find_me_gamer.Jobs.Contract.{valid_analysis_job_state}
use find_me_gamer.Jobs.Transitions.{JobLease, start, advance}
use find_me_gamer.Jobs.Transitions.Finalize.{Publication, Profile, finalize}
use find_me_gamer.Jobs.Transitions.End.{TerminalFailure, write_terminal_failure, claim_job}
use find_me_gamer.Jobs.Transitions.Steps.{Follows, Follows-refl, start-Follows, advance-Follows}
use find_me_gamer.Jobs.Transitions.Ends.{
  claim_job-Follows, finalize-Follows, write_terminal_failure-Follows,
}

-- A committed transition of a Job, by a service, a task or the publisher of the queue. The clocks, the
-- leases, the publications and the failures are any at all.
pub data Step (has_profile : AnalysisJob → Bool) : AnalysisJob → AnalysisJob → Type 0 where
  starts :
      {old new : AnalysisJob} (kind : TargetType) (clock : Clock) (lease : JobLease)
      → start kind has_profile clock old ≡ ok (lease, new)
      → Step has_profile old new
  claims :
      {old new : AnalysisJob} (clock : Clock) (target : Option TargetType)
      → claim_job has_profile clock old ≡ ok (target, new)
      → Step has_profile old new
  advances :
      {old new : AnalysisJob} (kind : TargetType) (completed_units : ℕ)
      → advance kind has_profile completed_units old ≡ ok new
      → Step has_profile old new
  finalizes :
      {old new : AnalysisJob} (kind : TargetType) (clock : Clock) (lease : JobLease)
      (p : Publication) (profiles rows : List Profile) (profile_id : Uuid)
      → finalize kind has_profile clock lease p old profiles ≡ ok (profile_id, new, rows)
      → Step has_profile old new
  fails :
      {old new : AnalysisJob} (preserve_running : Bool) (clock : Clock) (failure : TerminalFailure)
      (written : Bool)
      → write_terminal_failure has_profile preserve_running clock failure old ≡ ok (written, new)
      → Step has_profile old new

pub data Run (has_profile : AnalysisJob → Bool) (old : AnalysisJob) : AnalysisJob → Type 0 where
  here : Run has_profile old old
  next :
      {mid new : AnalysisJob}
      → Run has_profile old mid
      → Step has_profile mid new
      → Run has_profile old new

Follows-trans : {a b c : AnalysisJob} → Follows a b → Follows b c → Follows a c
Follows-trans {a} {b} {c} f g = record {
  same_id = g.same_id ∙ f.same_id;
  same_target_id = g.same_target_id ∙ f.same_target_id;
  valid = g.valid;
  status_kept = let x = f.status_kept in let y = g.status_kept in omega (arith, x, y);
  stage_kept = let x = f.stage_kept in let y = g.stage_kept in omega (arith, x, y);
  units_kept = let x = f.units_kept in let y = g.units_kept in omega (arith, x, y);
  final = λ ended.
      let same : b ≡ a = f.final ended in
      g.final (subst (λ (x : AnalysisJob). is_active x.status ≡ false) (sym same) ended) ∙ same;
}

module _ (has_profile : AnalysisJob → Bool) where
  Step-Follows :
      {old new : AnalysisJob}
      → Step has_profile old new
      → valid_analysis_job_state old ≡ true
      → Follows old new
  Step-Follows {old} (starts kind clock lease is_new) valid =
      Ensures-result (start-Follows kind has_profile clock old valid) is_new
  Step-Follows {old} (claims clock target is_new) valid =
      Ensures-result (claim_job-Follows has_profile clock old valid) is_new
  Step-Follows {old} (advances kind completed_units is_new) valid =
      Ensures-result (advance-Follows kind has_profile completed_units old valid) is_new
  Step-Follows {old} (finalizes kind clock lease p profiles rows profile_id is_new) valid =
      Ensures-result (finalize-Follows kind has_profile clock lease p old profiles valid) is_new
  Step-Follows {old} (fails preserve_running clock failure written is_new) valid =
      Ensures-result
        (write_terminal_failure-Follows has_profile preserve_running clock failure old valid) is_new

  -- Whatever transitions a Job goes through, in whatever order and by whichever workers: a Job with a
  -- valid state keeps a valid state and its identity, its status, its stage and its completed units
  -- never go back, and once it has succeeded or failed it never changes again.
  pub Run-Follows :
      {old new : AnalysisJob}
      → Run has_profile old new
      → valid_analysis_job_state old ≡ true
      → Follows old new
  Run-Follows {old} here valid = Follows-refl old valid
  Run-Follows (next run step) valid =
      let before = Run-Follows run valid in Follows-trans before (Step-Follows step before.valid)
