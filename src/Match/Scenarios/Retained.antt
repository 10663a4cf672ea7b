-- ===== src/Match/Scenarios/Retained.antt =====
-- An ended task whose inputs have expired.
use find_me_gamer.Prelude.{some}
use find_me_gamer.Match.Model.{MatchStatus, MatchTables}
use find_me_gamer.Match.Scenarios.Ranked.{ranking_task, ranking_tables}

abbrev expired_tables : MatchTables
expired_tables = record ranking_tables {
  task = some (record ranking_task { status = MatchStatus.failed });
}
