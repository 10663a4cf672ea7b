-- ===== src/Match/Pairwise/Aggregate.antt =====
-- The failure that the failed pairs give their task (`recompute_pair_failure_task` of
-- backend/app/matching/pairwise.py).
use mathlib.Core.Path.{subst}
use find_me_gamer.Prelude.{
  ◌≤◌, ◌≡◌, ◌⊎◌, refl, sym, ap, inl, inr, true, false, List, [], ◌∷◌, if◌then◌else◌, all, arith,
  Bool-cases,
}
use find_me_gamer.Result.{ok, Ensures, returned, Ensures-result, Ensures-require, Ensures-bind}
use find_me_gamer.Match.Model.{MatchTask, MatchPairwiseRecord, is_status_failed}
use find_me_gamer.Match.Pairwise.Failure.{
  ordered_before, first_in_order, failed_records, aggregate_failure, recompute_from,
  recompute_pair_failure_task,
}

ordered_before_refl : (a : MatchPairwiseRecord) → ordered_before a a ≡ true
unfolding ordered_before
ordered_before_refl a = ground arith

ordered_before_trans :
    (a b c : MatchPairwiseRecord)
    → ordered_before a b ≡ true
    → ordered_before b c ≡ true
    → ordered_before a c ≡ true
unfolding ordered_before
ordered_before_trans a b c h k = ground arith

ordered_before_total :
    (a b : MatchPairwiseRecord) → ordered_before a b ≡ false → ordered_before b a ≡ true
unfolding ordered_before
ordered_before_total a b h = ground arith

keeps_first :
    (a b : MatchPairwiseRecord) (rest : List MatchPairwiseRecord)
    → ordered_before a b ≡ true
    → first_in_order a rest ≡ first_in_order a (b ∷ rest)
unfolding first_in_order
keeps_first a b rest h = ap (λ x. first_in_order (if x then a else b) rest) (sym h)

takes_second :
    (a b : MatchPairwiseRecord) (rest : List MatchPairwiseRecord)
    → ordered_before a b ≡ false
    → first_in_order b rest ≡ first_in_order a (b ∷ rest)
unfolding first_in_order
takes_second a b rest h = ap (λ x. first_in_order (if x then a else b) rest) (sym h)

abbrev Before : MatchPairwiseRecord → List MatchPairwiseRecord → MatchPairwiseRecord → Type 0
Before a rows x = (ordered_before x a ≡ true) × (all (ordered_before x) rows ≡ true)

-- The first row in the order comes before every row.
first_in_order-Before :
    (a : MatchPairwiseRecord) (rows : List MatchPairwiseRecord)
    → Before a rows (first_in_order a rows)
unfolding first_in_order
first_in_order-Before a [] = (ordered_before_refl a, refl)
first_in_order-Before a (b ∷ rest) = elim (Bool-cases (ordered_before a b)) [
  | inl before ↦
      let found = first_in_order-Before a rest in
      let also = ordered_before_trans (first_in_order a rest) a b found.0 before in
      subst (Before a (b ∷ rest)) (keeps_first a b rest before) (found.0, rw (also, found.1))
  | inr after ↦
      let found = first_in_order-Before b rest in
      let also =
        ordered_before_trans (first_in_order b rest) b a found.0 (ordered_before_total a b after) in
      subst (Before a (b ∷ rest)) (takes_second a b rest after) (also, rw (found.0, found.1))
]

-- A row of a list.
pub data Among (a : MatchPairwiseRecord) : List MatchPairwiseRecord → Type 0 where
  first : {rows : List MatchPairwiseRecord} → Among a (a ∷ rows)
  later :
      {b : MatchPairwiseRecord} {rows : List MatchPairwiseRecord}
      → Among a rows
      → Among a (b ∷ rows)

skip :
    {a b c : MatchPairwiseRecord} {rest : List MatchPairwiseRecord}
    → Among c (a ∷ rest)
    → Among c (a ∷ b ∷ rest)
skip first = first
skip (later m) = later (later m)

first_in_order-Among :
    (a : MatchPairwiseRecord) (rows : List MatchPairwiseRecord)
    → Among (first_in_order a rows) (a ∷ rows)
unfolding first_in_order
first_in_order-Among a [] = first
first_in_order-Among a (b ∷ rest) = elim (Bool-cases (ordered_before a b)) [
  | inl before ↦
      subst (λ x. Among x (a ∷ b ∷ rest)) (keeps_first a b rest before)
        (skip (first_in_order-Among a rest))
  | inr after ↦
      subst (λ x. Among x (a ∷ b ∷ rest)) (takes_second a b rest after)
        (later (first_in_order-Among b rest))
]

-- Of two failed records the permanent one stands first, of two alike that of the lower identity.
abbrev pub Precedes : MatchPairwiseRecord → MatchPairwiseRecord → Type 0
Precedes a b =
    ((a.retryable ≡ false) × (b.retryable ≡ true))
    ⊎ ((a.retryable ≡ b.retryable) × (a.creator_id ≤ b.creator_id))

ordered_before-Precedes : (a b : MatchPairwiseRecord) → ordered_before a b ≡ true → Precedes a b
unfolding ordered_before
ordered_before-Precedes a b h = elim (Bool-cases a.retryable) [
  | inl a_is ↦ elim (Bool-cases b.retryable) [
    | inl b_is ↦ inr (ground arith, ground arith)
    | inr b_is ↦ absurd (ground arith)
  ]
  | inr a_is ↦ elim (Bool-cases b.retryable) [
    | inl b_is ↦ inl (a_is, b_is)
    | inr b_is ↦ inr (ground arith, ground arith)
  ]
]

all-Precedes :
    (a b : MatchPairwiseRecord) (rows : List MatchPairwiseRecord)
    → all (ordered_before a) rows ≡ true
    → Among b rows
    → Precedes a b
all-Precedes a b [] h among = elim among [ ]
all-Precedes a b (c ∷ rows) h first = ordered_before-Precedes a b (ground arith)
all-Precedes a b (c ∷ rows) h (later m) = all-Precedes a b rows (ground arith) m

-- What the failed records of a task make of it: a failed record that precedes all of them, the
-- permanent before the retryable and then by identity, gives the task its code and message, and the
-- task is retryable exactly where every one of them is.
pub record IsAggregate (rows : List MatchPairwiseRecord) (task : MatchTask) : Type 0 where
  pub row : MatchPairwiseRecord
  pub among : Among row rows
  pub least : (other : MatchPairwiseRecord) → Among other rows → Precedes row other
  pub status : is_status_failed task.status ≡ true
  pub code : task.error_code ≡ row.error_code
  pub message : task.error_message ≡ row.error_message
  pub retryable : task.retryable ≡ all (λ (r : MatchPairwiseRecord). r.retryable) rows
  pub no_results : task.result_count ≡ 0

aggregate_failure-IsAggregate :
    (row : MatchPairwiseRecord) (rest : List MatchPairwiseRecord) (task : MatchTask)
    → Ensures (IsAggregate (row ∷ rest)) (aggregate_failure row rest task)
unfolding aggregate_failure
aggregate_failure-IsAggregate row rest task =
    let before = first_in_order-Before row rest in
    Ensures-require _ _ _ λ completed_at _. returned (record {
      row = first_in_order row rest;
      among = first_in_order-Among row rest;
      least = λ other among.
          all-Precedes (first_in_order row rest) other (row ∷ rest) (rw (before.0, before.1)) among;
      status = refl;
      code = refl;
      message = refl;
      retryable = refl;
      no_results = refl;
    })

recompute_from-IsAggregate :
    (rows : List MatchPairwiseRecord) (task next : MatchTask)
    → recompute_from rows task ≡ ok (true, next)
    → IsAggregate rows next
unfolding recompute_from
recompute_from-IsAggregate [] task next h = absurd (ground arith)
recompute_from-IsAggregate (row ∷ rest) task next h =
    Ensures-result {P = λ r. IsAggregate (row ∷ rest) r.1} {a = (true, next)}
      (Ensures-bind (aggregate_failure row rest task) _ λ made made_is.
        returned {a = (true, made)}
          (Ensures-result (aggregate_failure-IsAggregate row rest task) made_is))
      h

-- Where `recompute_pair_failure_task` reports a failure, the task is failed without results; it takes
-- code and message of a failed record that precedes every failed record, the permanent before the
-- retryable and then by identity; and it is retryable exactly where every failed record is.
pub recompute_pair_failure_task-IsAggregate :
    (pairs : List MatchPairwiseRecord) (task next : MatchTask)
    → recompute_pair_failure_task pairs task ≡ ok (true, next)
    → IsAggregate (failed_records pairs) next
unfolding recompute_pair_failure_task
recompute_pair_failure_task-IsAggregate pairs task next h =
    recompute_from-IsAggregate (failed_records pairs) task next h
