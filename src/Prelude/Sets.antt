-- ===== src/Prelude/Sets.antt =====
-- Python sets of identities, as the lists from which the program builds them.
use find_me_gamer.Prelude.{
  filter, ℕ, suc, ◌≤◌, ◌≡◌, refl, Bool, true, false, not, ◌&&◌, ◌||◌, List, [], ◌∷◌, arith, ◌==◌,
  length, if◌then◌else◌,
}

-- `x in xs`
abbrev pub member : ℕ → List ℕ → Bool
member a [] = false
member a (x ∷ xs) = (a == x) || member a xs

-- `len(xs) == len(set(xs))`
abbrev pub distinct : List ℕ → Bool
distinct [] = true
distinct (x ∷ xs) = not (member x xs) && distinct xs

-- `set(xs) <= set(ys)`
abbrev pub subset : List ℕ → List ℕ → Bool
subset [] ys = true
subset (x ∷ xs) ys = member x ys && subset xs ys

-- `set(xs) == set(ys)`
abbrev pub same_set : List ℕ → List ℕ → Bool
same_set xs ys = subset xs ys && subset ys xs

-- xs without every `a`
abbrev without : ℕ → List ℕ → List ℕ
without a [] = []
without a (x ∷ xs) = if a == x then without a xs else x ∷ without a xs

pub member_of_subset :
    (a : ℕ) (xs ys : List ℕ) → subset xs ys ≡ true → member a xs ≡ true → member a ys ≡ true
member_of_subset a [] ys h m = absurd (ground arith)
member_of_subset a (x ∷ xs) ys h m = ground (arith, member_of_subset a xs ys)

member-without :
    (a b : ℕ) (ys : List ℕ) → member b ys ≡ true → (a == b) ≡ false → member b (without a ys) ≡ true
member-without a b [] m ne = m
member-without a b (y ∷ ys) m ne = ground (arith, member-without a b ys)

subset-without :
    (a : ℕ) (xs ys : List ℕ)
    → subset xs ys ≡ true
    → member a xs ≡ false
    → subset xs (without a ys) ≡ true
subset-without a [] ys h n = refl
subset-without a (x ∷ xs) ys h n = ground (arith, subset-without a xs ys, member-without a x ys)

length-without : (a : ℕ) (ys : List ℕ) → length (without a ys) ≤ length ys
length-without a [] = omega arith
length-without a (y ∷ ys) = ground (arith, length-without a ys)

length-without_lt :
    (a : ℕ) (ys : List ℕ) → member a ys ≡ true → suc (length (without a ys)) ≤ length ys
length-without_lt a [] m = absurd (ground arith)
length-without_lt a (y ∷ ys) m = ground (arith, length-without_lt a ys, length-without a ys)

-- Distinct identities drawn from a list are at most as many as the list holds.
pub length-le_of_subset :
    (xs ys : List ℕ) → distinct xs ≡ true → subset xs ys ≡ true → length xs ≤ length ys
length-le_of_subset [] ys d h = omega arith
length-le_of_subset (x ∷ xs) ys d h =
    ground
      (arith, length-le_of_subset xs (without x ys), subset-without x xs ys, length-without_lt x ys)

-- Two lists of distinct identities that are equal as sets are equally long.
pub length-eq_of_same_set :
    (xs ys : List ℕ)
    → distinct xs ≡ true
    → distinct ys ≡ true
    → same_set xs ys ≡ true
    → length xs ≡ length ys
length-eq_of_same_set xs ys dx dy h =
    ground (arith, length-le_of_subset xs ys, length-le_of_subset ys xs)

subset_of_members :
    (xs ys : List ℕ) → ((a : ℕ) → member a xs ≡ true → member a ys ≡ true) → subset xs ys ≡ true
subset_of_members [] ys h = refl
subset_of_members (x ∷ xs) ys h =
    ground (arith, h x, subset_of_members xs ys (λ a m. h a (ground arith)))

pub subset_refl : (xs : List ℕ) → subset xs xs ≡ true
subset_refl xs = subset_of_members xs xs (λ a m. m)

pub subset_trans :
    (xs ys zs : List ℕ) → subset xs ys ≡ true → subset ys zs ≡ true → subset xs zs ≡ true
subset_trans xs ys zs h k =
    subset_of_members xs zs λ a m. member_of_subset a ys zs k (member_of_subset a xs ys h m)

pub same_set_symm : (xs ys : List ℕ) → same_set xs ys ≡ true → same_set ys xs ≡ true
same_set_symm xs ys h = ground arith

pub same_set_trans :
    (xs ys zs : List ℕ) → same_set xs ys ≡ true → same_set ys zs ≡ true → same_set xs zs ≡ true
same_set_trans xs ys zs h k = ground (arith, subset_trans xs ys zs, subset_trans zs ys xs)

member-filter :
    (a : ℕ) (keep xs : List ℕ)
    → member a (filter (λ c. member c keep) xs) ≡ member a keep && member a xs
member-filter a keep [] = ground arith
member-filter a keep (x ∷ xs) = ground (arith, member-filter a keep xs)

-- Filtering by a list of identities that all occur gives those identities.
pub same_set-filter :
    (keep xs : List ℕ)
    → subset keep xs ≡ true
    → same_set (filter (λ c. member c keep) xs) keep ≡ true
same_set-filter keep xs h = ground (
  arith,
  subset_of_members (filter (λ c. member c keep) xs) keep
      (λ a m. ground (arith, member-filter a keep xs)),
  subset_of_members keep (filter (λ c. member c keep) xs)
      (λ a m. ground (arith, member-filter a keep xs, member_of_subset a keep xs)),
)

pub distinct-filter :
    (keep xs : List ℕ) → distinct xs ≡ true → distinct (filter (λ c. member c keep) xs) ≡ true
distinct-filter keep [] h = refl
distinct-filter keep (x ∷ xs) h = ground (arith, distinct-filter keep xs, member-filter x keep xs)
