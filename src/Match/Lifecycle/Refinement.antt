-- ===== src/Match/Lifecycle/Refinement.antt =====
-- The operations on a Match task, against the moves of Lifecycle/Moves.
pub mod Screening
pub mod Pairwise
pub mod Worker
pub mod Ranking
use find_me_gamer.Result.{Result, Ensures}
use find_me_gamer.Match.Model.{MatchTables, BriefSchema}
use find_me_gamer.Match.Screening.{ScreeningSchema}
use find_me_gamer.Match.Lifecycle.Moves.{Move}

module _ (schema : BriefSchema) (screening_schema : ScreeningSchema) where
  -- A transaction that returns has made a move.
  abbrev pub Moves {ℓ} : {A : Type ℓ} → MatchTables → Result (A × MatchTables) → Type ℓ
  Moves t r = Ensures (λ u. Move schema screening_schema t u.1) r
