-- ===== src/Match/Pairwise/Service.antt =====
-- `PairwiseService.run` of backend/app/matching/pairwise.py.
use find_me_gamer.Prelude.{Option, none, some}
use find_me_gamer.Result.{Result, ok, err, ◌>>=◌, settle}
use find_me_gamer.Match.Model.{Uuid, Clock, MatchTables, PairwiseMatchBrief, BriefSchema}
use find_me_gamer.Match.Pairwise.Brief.{provider_brief}
use find_me_gamer.Match.Pairwise.Claim.{LockedInputSchema, LockedPairwiseInput, claim}
use find_me_gamer.Match.Pairwise.Apply.{apply_success}

-- The second transaction.
finish_claimed :
    BriefSchema
    → (LockedPairwiseInput → Result (Option PairwiseMatchBrief))
    → Clock
    → Uuid
    → Uuid
    → LockedPairwiseInput
    → MatchTables
    → Result (PairwiseMatchBrief × MatchTables)
unfolding provider_brief apply_success
finish_claimed schema answer clock match_task_id creator_id claimed t =
    elim claimed.completed_brief [
      | some brief ↦ ok (brief, t)
      | none ↦ (do
        raw ← answer claimed
        validated ← provider_brief schema raw creator_id
        apply_success schema clock match_task_id creator_id validated t)
    ]

-- `run`, where no other worker changes the rows during the provider's call. `answer` is the
-- provider: it may raise, and `none` is a value of another type.
unfoldable pub run :
    BriefSchema
    → LockedInputSchema
    → (LockedPairwiseInput → Result (Option PairwiseMatchBrief))
    → Clock
    → Clock
    → Uuid
    → Uuid
    → MatchTables
    → Result PairwiseMatchBrief × MatchTables
unfolding claim finish_claimed
run schema locked answer at_claim at_apply match_task_id creator_id t =
    elim (claim schema locked at_claim match_task_id creator_id t) [
      | err e ↦ (err e, t)
      | ok (claimed, t') ↦
          settle t' (finish_claimed schema answer at_apply match_task_id creator_id claimed t')
    ]
