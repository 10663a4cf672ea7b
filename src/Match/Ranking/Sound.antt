-- ===== src/Match/Ranking/Sound.antt =====
-- What `_validated_output` of backend/app/matching/ranking.py lets through.
use mathlib.Core.Path.{subst}
use find_me_gamer.Prelude.{
  ℕ, zero, suc, ◌+◌, ◌-◌, ◌*◌, ◌^◌, ◌<◌, ◌≤◌, ◌≡◌, refl, sym, ap, ◌∙◌, true, not, Option, some,
  List, [], ◌∷◌, map, leb, length, length-map, arith,
}
use find_me_gamer.Prelude.Sets.{distinct, same_set, length-eq_of_same_set}
use find_me_gamer.Result.{
  ok, Ensures, returned, raised, Ensures-result, Ensures-raise_if, Ensures-if, Ensures-require,
  Ensures-bind, Ensures-mono,
}
use find_me_gamer.Match.Model.{Uuid, MatchResultGroup, recommended, other}
use find_me_gamer.Match.Ranking.Bounds.{step, quantize-half_up}
use find_me_gamer.Match.Ranking.Output.{
  Decimal, quantize, quantize_score, RankingItem, TextRules, PublicationItem, publication_items,
  validated_output, same_group, expected_group, unit_score, ranking_ids, ranking_orders,
  is_final_output, matches_expected,
}

abbrev pub item_ids : List PublicationItem → List Uuid
item_ids = map (λ (item : PublicationItem). item.ranking.creator_id)

abbrev pub item_orders : List PublicationItem → List ℕ
item_orders = map (λ (item : PublicationItem). item.ranking.backend_order)

-- The nearest multiple of 0.0001 to a score, the upper where two are equally near: `score` counts the
-- multiples, and both sides are multiplied by 2 * 10 ^ (places + 4).
abbrev pub IsRounded : Decimal → ℕ → Type 0
IsRounded d score =
    (2 * (score * 10 ^ d.places) ≤ 2 * (d.coefficient * 10000) + 10 ^ d.places)
    × (2 * (d.coefficient * 10000) < 2 * (score * 10 ^ d.places) + 10 ^ d.places)

-- An item's score is the model's, rounded; it is at most one; and the item stands among the
-- recommended exactly where the score reaches the threshold.
pub record IsScored (threshold : ℕ) (item : PublicationItem) : Type 0 where
  pub rounded : IsRounded item.ranking.total_score item.total_score
  pub at_most_one : item.total_score ≤ 10000
  pub reached : threshold ≤ item.total_score → item.ranking.result_group ≡ recommended
  pub missed : item.total_score < threshold → item.ranking.result_group ≡ other

pub data EachScored (threshold : ℕ) : List PublicationItem → Type 0 where
  no_items : EachScored threshold []
  item_and :
      {item : PublicationItem} {items : List PublicationItem}
      → IsScored threshold item
      → EachScored threshold items
      → EachScored threshold (item ∷ items)

rounded_long :
    (c q s t : ℕ)
    → t ≡ 10000 * s
    → 2 * (q * s) ≤ 2 * c + s
    → 2 * c < 2 * (q * s) + s
    → (2 * (q * t) ≤ 2 * (c * 10000) + t) × (2 * (c * 10000) < 2 * (q * t) + t)
rounded_long c q s t t_is low high =
    let flat : q * t ≡ 10000 * (q * s) = rw t_is (grind arith) in
    (omega (arith, flat, low, high, t_is), omega (arith, flat, low, high, t_is))

quantize-IsRounded_at :
    (c places : ℕ)
    → IsRounded
        (record { coefficient = c; places = places })
        (quantize (record { coefficient = c; places = places }))
quantize-IsRounded_at c zero = unfold quantize in (ground arith, ground arith)
quantize-IsRounded_at c (suc zero) = unfold quantize in (ground arith, ground arith)
quantize-IsRounded_at c (suc (suc zero)) = unfold quantize in (ground arith, ground arith)
quantize-IsRounded_at c (suc (suc (suc zero))) = unfold quantize in (ground arith, ground arith)
quantize-IsRounded_at c (suc (suc (suc (suc n)))) =
    let d : Decimal = record { coefficient = c; places = suc (suc (suc (suc n))) } in
    let near = quantize-half_up d (omega arith) in
    let rest : suc (suc (suc (suc n))) - 4 ≡ n = omega arith in
    let split : 10 ^ suc (suc (suc (suc n))) ≡ 10000 * 10 ^ (suc (suc (suc (suc n))) - 4) =
      rw rest (omega arith) in
    rounded_long c (quantize d) (step d) (10 ^ suc (suc (suc (suc n)))) split near.0 near.1

quantize_score-eq :
    (d : Decimal) → Ensures (λ score. (score ≡ quantize d) × (score ≤ 10000)) (quantize_score d)
unfolding quantize_score
quantize_score-eq d =
    Ensures-if (leb (quantize d) unit_score) _ _ (λ fits. returned (refl, ground arith))
      (λ _. raised)

group-scored :
    (threshold score : ℕ) (group : MatchResultGroup)
    → same_group group (expected_group threshold score) ≡ true
    → (threshold ≤ score → group ≡ recommended) × (score < threshold → group ≡ other)
unfolding expected_group
group-scored threshold score recommended h = (λ _. refl, λ low. absurd (ground arith))
group-scored threshold score other h = (λ high. absurd (ground arith), λ _. refl)

record Translated (threshold : ℕ) (ranked : List RankingItem) (items : List PublicationItem)
    : Type 0 where
  rankings : map (λ (item : PublicationItem). item.ranking) items ≡ ranked
  ids : item_ids items ≡ ranking_ids ranked
  orders : item_orders items ≡ ranking_orders ranked
  scored : EachScored threshold items

publication_items-Translated :
    (threshold : ℕ) (ranked : List RankingItem)
    → Ensures (Translated threshold ranked) (publication_items threshold ranked)
unfolding publication_items
publication_items-Translated threshold [] =
    returned (record { rankings = refl; ids = refl; orders = refl; scored = no_items })
publication_items-Translated threshold (item ∷ rest) =
    Ensures-bind (quantize_score item.total_score) _ λ score score_is.
      Ensures-raise_if (not (same_group item.result_group (expected_group threshold score))) _ _
        λ same. Ensures-bind _ _ λ items items_are.
          let later = Ensures-result (publication_items-Translated threshold rest) items_are in
          let fits = Ensures-result (quantize_score-eq item.total_score) score_is in
          let grouped = group-scored threshold score item.result_group (ground arith) in
          returned (record {
            rankings = ap (λ xs. item ∷ xs) later.rankings;
            ids = ap (λ xs. item.creator_id ∷ xs) later.ids;
            orders = ap (λ xs. item.backend_order ∷ xs) later.orders;
            scored =
                item_and
                  (record {
                    rounded = subst (IsRounded item.total_score) (sym fits.0) (
                        quantize-IsRounded_at item.total_score.coefficient item.total_score.places);
                    at_most_one = fits.1;
                    reached = grouped.0;
                    missed = grouped.1;
                  })
                  later.scored;
          })

-- A ranking that may be published: the model's own items in their order, the expected Creators each
-- once, in distinct places, at most thirty, each with its score rounded and in the group that the
-- rounded score and the threshold give it.
pub record IsPublishable (value : Option (List RankingItem)) (expected : List Uuid) (threshold : ℕ)
    (items : List PublicationItem) : Type 0 where
  pub answered : value ≡ some (map (λ (item : PublicationItem). item.ranking) items)
  pub expected_once : distinct expected ≡ true
  pub complete : same_set (item_ids items) expected ≡ true
  pub unique : distinct (item_ids items) ≡ true
  pub placed : distinct (item_orders items) ≡ true
  pub scored : EachScored threshold items
  pub as_many : length items ≡ length expected
  pub at_most : length items ≤ 30

publishable :
    (rules : TextRules) (value : Option (List RankingItem)) (ranked : List RankingItem)
    (expected : List Uuid) (threshold : ℕ) (items : List PublicationItem)
    → value ≡ some ranked
    → is_final_output rules ranked ≡ true
    → matches_expected rules expected ranked ≡ true
    → Translated threshold ranked items
    → IsPublishable value expected threshold items
unfolding is_final_output matches_expected
publishable rules value ranked expected threshold items value_is final matches made =
    let unique : distinct (item_ids items) ≡ true = rw made.ids (ground arith) in
    let complete : same_set (item_ids items) expected ≡ true = rw made.ids (ground arith) in
    let expected_once : distinct expected ≡ true = ground arith in
    let counted : length items ≡ length (item_ids items) = sym (length-map _ items) in
    let ranked_counted : length items ≡ length ranked =
      counted ∙ ap length made.ids ∙ length-map _ ranked in
    record {
      answered = value_is ∙ ap some (sym made.rankings);
      expected_once = expected_once;
      complete = complete;
      unique = unique;
      placed = rw made.orders (ground arith);
      scored = made.scored;
      as_many =
          counted ∙ length-eq_of_same_set (item_ids items) expected unique expected_once complete;
      at_most = rw ranked_counted (ground arith);
    }

-- Whatever the ranking model answers, a validated output holds the items of the answer in their order
-- and ranks the expected Creators once each, at most thirty, in distinct places. The published score
-- of each is the nearest multiple of 0.0001 to the model's score, the upper of two, and at most one;
-- an item is recommended where that score reaches the threshold and other where it does not.
pub validated_output-IsPublishable :
    (rules : TextRules) (value : Option (List RankingItem)) (expected : List Uuid) (threshold : ℕ)
    (items : List PublicationItem)
    → validated_output rules value expected threshold ≡ ok items
    → IsPublishable value expected threshold items
unfolding validated_output
validated_output-IsPublishable rules value expected threshold items = Ensures-result (
    Ensures-require _ _ _ λ ranked value_is. Ensures-raise_if _ _ _ λ valid.
      Ensures-mono
        (λ made translated.
          publishable rules value ranked expected threshold made value_is (ground arith)
            (ground arith) translated)
        (publication_items-Translated threshold ranked))
