-- ===== src/Gateway/Protocol/Check/Laws.antt =====
-- What a valid match event is: the order, the period and the accounts of its results.
use hive_chameleon.Prelude.{
  ◌&&◌, ℕ, String, Bool, true, false, List, [], ◌∷◌, ◌≤◌, ◌<◌, ◌≡◌, length, all, All, contains,
  some, arith, Bool-cases, inl, inr, Option-cases,
}
use hive_chameleon.Gateway.Library.{Library, IsLibrary}
use hive_chameleon.Gateway.Protocol.Event.{MatchResult}
use hive_chameleon.Gateway.Protocol.Check.{
  set_size, are_unique, accounts_of, like_accounts, refined_result, valid_result,
  valid_result_fields, inside_period,
}

-- No text stands twice in the list.
abbrev pub Distinct : List String → Type 0
Distinct [] = Unit
Distinct (x ∷ xs) = (contains xs x ≡ false) × Distinct xs

set_size_bound : (xs : List String) → set_size xs ≤ length xs
unfolding set_size
set_size_bound [] = omega arith
set_size_bound (x ∷ xs) = ground (arith, set_size_bound xs)

-- The size of the set equals the length of the array exactly when no text stands twice.
pub are_unique-Distinct : (xs : List String) → are_unique xs ≡ true → Distinct xs
unfolding are_unique set_size
are_unique-Distinct [] h = tt
are_unique-Distinct (x ∷ xs) h = elim (Bool-cases (contains xs x)) [
  | inl e ↦ ground (arith, set_size_bound xs)
  | inr e ↦ (e, are_unique-Distinct xs (ground arith))
]

pub all-All {ℓ} :
    {A : Type ℓ} (p : A → Bool) (xs : List A) → all p xs ≡ true → All (λ x. p x ≡ true) xs
all-All p [] h = tt
all-All p (x ∷ xs) h = (ground arith, all-All p xs (ground arith))

-- What the `superRefine` of a result establishes.
pub record IsConsistent (r : MatchResult) : Type 0 where
  pub accounts : Distinct (accounts_of r)
  pub winners_once : Distinct r.winner_accounts
  pub survivors_once : Distinct r.survivors
  pub likes_once : Distinct (like_accounts r)
  pub winners : All (λ a. contains (accounts_of r) a ≡ true) r.winner_accounts
  pub survivors : All (λ a. contains (accounts_of r) a ≡ true) r.survivors
  pub likes : All (λ a. contains (accounts_of r) a ≡ true) (like_accounts r)
  pub discoveries :
      All
        (λ d. (contains (accounts_of r) d.hunter && contains (accounts_of r) d.hider) ≡ true)
        r.discoveries

pub refined_result-IsConsistent : (r : MatchResult) → refined_result r ≡ true → IsConsistent r
unfolding refined_result
refined_result-IsConsistent r h = record {
  accounts = are_unique-Distinct _ (ground arith);
  winners_once = are_unique-Distinct _ (ground arith);
  survivors_once = are_unique-Distinct _ (ground arith);
  likes_once = are_unique-Distinct _ (ground arith);
  discoveries = all-All _ _ (ground arith);
  winners = all-All _ _ (ground arith);
  survivors = all-All _ _ (ground arith);
  likes = all-All _ _ (ground arith);
}

pub valid_result-IsConsistent :
    (lib : Library) (r : MatchResult) → valid_result lib r ≡ true → IsConsistent r
unfolding valid_result
valid_result-IsConsistent lib r h = refined_result-IsConsistent r (ground arith)

pub valid_result-dated :
    (lib : Library)
    → IsLibrary lib
    → (r : MatchResult) → valid_result lib r ≡ true
    → (n : ℕ) × (lib.date_parse r.completed_at ≡ some n)
unfolding valid_result valid_result_fields
valid_result-dated lib laws r h = elim (Option-cases (lib.date_parse r.completed_at)) [
  | inr found ↦ found
  | inl e ↦ ground (arith, laws.dated r.completed_at (ground arith), e)
]

-- The completion lies in the half-open period from `low` to `high`.
abbrev pub IsInside : Library → ℕ → ℕ → MatchResult → Type 0
IsInside lib low high r =
    (n : ℕ) × (lib.date_parse r.completed_at ≡ some n) × (low ≤ n) × (n < high)

pub inside_period-IsInside :
    (lib : Library)
    → IsLibrary lib
    → (low high : ℕ) (r : MatchResult) → valid_result lib r ≡ true
    → inside_period lib (some low) (some high) r ≡ true
    → IsInside lib low high r
unfolding inside_period
inside_period-IsInside lib laws low high r valid h =
    let (n, e) = valid_result-dated lib laws r valid in (n, e, ground (arith, e), ground (arith, e))
