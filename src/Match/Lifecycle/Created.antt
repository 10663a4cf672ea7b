-- ===== src/Match/Lifecycle/Created.antt =====
-- The rows that `create_locked_task` of backend/app/repositories/match.py makes.
use mathlib.Core.Path.{ap₂, subst}
use find_me_gamer.Prelude.{
  ℕ, ◌+◌, ◌-◌, ◌≡◌, refl, true, Option, some, List, [], ◌∷◌, map, ◌==◌, find, arith,
}
use find_me_gamer.Prelude.Sets.{distinct, same_set}
use find_me_gamer.Result.{
  ok, ◌>>=◌, raise_if, Ensures, returned, Ensures-result, Ensures-raise_if, Ensures-require,
  Ensures-bind,
}
use find_me_gamer.Match.Model.{
  Uuid, Timestamp, Json, MatchTask, MatchTables, BriefSchema, is_status_queued, is_stage_screening,
  selected_ids, candidate_ids, screening_ids,
}
use find_me_gamer.Match.Ranking.Inputs.{is_published}
use find_me_gamer.Match.Constraints.{task_check}
use find_me_gamer.Match.Lifecycle.Invariant.{Consistent}
use find_me_gamer.Match.Creation.{
  CreatorProfile, GameProfile, CreationSchema, eligible_creators, eligible_ids,
  stable_shuffled_creator_ids, look_up, screening_records, candidate_input, created_task,
  create_locked_task, match_input_retention,
}

-- The documented behaviour of `random.Random(seed).shuffle`: it permutes the list.
pub record Shuffles (schema : CreationSchema) : Type 0 where
  pub keeps_distinct :
      (seed : ℕ) (ids : List Uuid) → distinct ids ≡ true → distinct (schema.shuffle seed ids) ≡ true
  pub keeps_members : (seed : ℕ) (ids : List Uuid) → same_set (schema.shuffle seed ids) ids ≡ true

module _ (schema : CreationSchema) where
  find-identity :
      (creator_id : Uuid) (eligible : List (Uuid × CreatorProfile × Json))
      (entry : Uuid × CreatorProfile × Json)
      → find (λ (e : Uuid × CreatorProfile × Json). e.0 == creator_id) eligible ≡ some entry
      → entry.0 ≡ creator_id
  find-identity creator_id [] entry h = cc
  find-identity creator_id (e ∷ rest) entry h = ground (arith, find-identity creator_id rest entry)

  look_up-ids :
      (eligible : List (Uuid × CreatorProfile × Json)) (ordered : List Uuid)
      → Ensures (λ entries. eligible_ids schema entries ≡ ordered) (look_up schema eligible ordered)
  unfolding look_up
  look_up-ids eligible [] = returned refl
  look_up-ids eligible (creator_id ∷ rest) =
      Ensures-require (find (λ (e : Uuid × CreatorProfile × Json). e.0 == creator_id) eligible) _ _
        λ entry found. Ensures-bind (look_up schema eligible rest) _ λ entries entries_are.
          returned (
            ap₂ (λ x xs. x ∷ xs) (find-identity creator_id eligible entry found)
              (Ensures-result (look_up-ids eligible rest) entries_are))

  screening_records-ids :
      (order : ℕ) (entries : List (Uuid × CreatorProfile × Json))
      → screening_ids (screening_records schema order entries) ≡ eligible_ids schema entries
  unfolding screening_records
  screening_records-ids order [] = refl
  screening_records-ids order (entry ∷ rest) =
      ground (arith, screening_records-ids (order + 1) rest)

  screening_records-selected :
      (order : ℕ) (entries : List (Uuid × CreatorProfile × Json))
      → selected_ids (screening_records schema order entries) ≡ []
  unfolding screening_records
  screening_records-selected order [] = refl
  screening_records-selected order (entry ∷ rest) = screening_records-selected (order + 1) rest

  pub candidate_input-ids :
      (entries : List (Uuid × CreatorProfile × Json))
      → candidate_ids (map (candidate_input schema) entries) ≡ eligible_ids schema entries
  unfolding candidate_input
  candidate_input-ids [] = refl
  candidate_input-ids (entry ∷ rest) = ground (arith, candidate_input-ids rest)

  -- The rows of a new task, against the eligible Creators.
  pub record IsCreated (eligible : List Uuid) (t : MatchTables) : Type 0 where
    pub task_checked : (task : MatchTask) → t.task ≡ some task → task_check task ≡ true
    pub in_screening :
        (task : MatchTask)
        → t.task ≡ some task
        → (is_stage_screening task.stage ≡ true) × (is_status_queued task.status ≡ true)
    pub no_pairs : t.pairs ≡ []
    pub no_results : t.results ≡ []
    pub no_campaign : t.campaigns ≡ 0
    pub none_selected : selected_ids t.screening ≡ []
    pub unique : distinct (screening_ids t.screening) ≡ true
    pub complete : same_set (screening_ids t.screening) eligible ≡ true
    pub same_order : candidate_ids t.candidates ≡ screening_ids t.screening

  shuffled_ids :
      (ids : List Uuid) (seed : ℕ) (ordered : List Uuid)
      → stable_shuffled_creator_ids schema ids seed ≡ ok ordered
      → (distinct ids ≡ true) × (ordered ≡ schema.shuffle seed ids)
  unfolding stable_shuffled_creator_ids ◌>>=◌ raise_if
  shuffled_ids ids seed ordered h = ground arith

  created_rows :
      Shuffles schema
      → (eligible : List (Uuid × CreatorProfile × Json)) (seed : ℕ) (ordered : List Uuid)
        (entries : List (Uuid × CreatorProfile × Json))
      → stable_shuffled_creator_ids schema (eligible_ids schema eligible) seed ≡ ok ordered
      → look_up schema eligible ordered ≡ ok entries
      → (distinct (eligible_ids schema entries) ≡ true)
        × (same_set (eligible_ids schema entries) (eligible_ids schema eligible) ≡ true)
  created_rows shuffles eligible seed ordered entries shuffled found =
      let ids = eligible_ids schema eligible in
      let order = shuffled_ids ids seed ordered shuffled in
      let same = Ensures-result (look_up-ids eligible ordered) found in
      (
        rw (same, order.1) (shuffles.keeps_distinct seed ids order.0),
        rw (same, order.1) (shuffles.keeps_members seed ids),
      )

  IsCreated-tables :
      Shuffles schema
      → (now : Timestamp) (seed threshold : ℕ) (game_brief : Json)
        (eligible entries : List (Uuid × CreatorProfile × Json)) (ordered : List Uuid)
      → stable_shuffled_creator_ids schema (eligible_ids schema eligible) seed ≡ ok ordered
      → look_up schema eligible ordered ≡ ok entries
      → IsCreated (eligible_ids schema eligible) (record {
        task = some (created_task schema now threshold game_brief);
        screening = screening_records schema 0 entries;
        candidates = map (candidate_input schema) entries;
        pairs = [];
        results = [];
        campaigns = 0;
      })
  unfolding created_task task_check
  IsCreated-tables shuffles now seed threshold game_brief eligible entries ordered shuffled found =
      let rows = created_rows shuffles eligible seed ordered entries shuffled found in
      let ids = screening_records-ids 0 entries in
      record {
        task_checked = λ task task_is. ground arith;
        in_screening = λ task task_is. ground arith;
        no_pairs = refl;
        no_results = refl;
        no_campaign = refl;
        none_selected = screening_records-selected 0 entries;
        unique = rw ids rows.0;
        complete = rw ids rows.1;
        same_order = rw (ids, candidate_input-ids entries);
      }

  at_time :
      (creators : List CreatorProfile) (now present : Timestamp) {t : MatchTables}
      → ◌≡◌ {A = Option Timestamp} (some now) (some present)
      → IsCreated
          (eligible_ids schema
            (eligible_creators schema (present - match_input_retention) creators))
          t
      → IsCreated
          (eligible_ids schema (eligible_creators schema (now - match_input_retention) creators))
          t
  at_time creators now present {t} same new =
      subst
        (λ (n : Timestamp).
          IsCreated
            (eligible_ids schema (eligible_creators schema (n - match_input_retention) creators)) t)
        {x = present} {y = now} (cc) new

  created :
      Shuffles schema
      → (now : Timestamp) (seed threshold : ℕ) (game : Option GameProfile)
        (creators : List CreatorProfile)
      → Ensures
          (IsCreated
            (eligible_ids schema (eligible_creators schema (now - match_input_retention) creators)))
          (create_locked_task schema (some now) seed threshold game creators)
  unfolding create_locked_task
  created shuffles now seed threshold game creators = Ensures-raise_if _ _ _ λ _.
      Ensures-require _ _ _ λ present present_is. Ensures-require _ _ _ λ _ _.
        Ensures-require _ _ _ λ game_brief _. Ensures-raise_if _ _ _ λ _.
          Ensures-bind _ _ λ ordered shuffled. Ensures-bind _ _ λ entries found. returned (
            at_time creators now present present_is (
              IsCreated-tables shuffles present seed threshold game_brief
                (eligible_creators schema (present - match_input_retention) creators) entries
                ordered shuffled found))

  -- With a shuffle that permutes and at an aware time, a new task is queued for screening, and its
  -- screening records and candidate inputs are the eligible Creators, each once and in one order,
  -- with nothing selected.
  pub create_locked_task-IsCreated :
      Shuffles schema
      → (now : Timestamp) (seed threshold : ℕ) (game : Option GameProfile)
        (creators : List CreatorProfile) {t : MatchTables}
      → create_locked_task schema (some now) seed threshold game creators ≡ ok t
      → IsCreated
          (eligible_ids schema (eligible_creators schema (now - match_input_retention) creators))
          t
  create_locked_task-IsCreated shuffles now seed threshold game creators =
      Ensures-result (created shuffles now seed threshold game creators)

-- A new task is consistent.
pub IsCreated-Consistent :
    (briefs : BriefSchema) (schema : CreationSchema) {eligible : List Uuid} {t : MatchTables}
    → IsCreated schema eligible t
    → Consistent briefs t
unfolding is_published
IsCreated-Consistent briefs schema {t = t} new task task_is =
    ground (arith, new.task_checked task, new.in_screening task)
