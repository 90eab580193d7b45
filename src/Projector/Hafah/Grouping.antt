-- ===== src/Projector/Hafah/Grouping.antt =====
-- `HafahHttpSource` under `HafProjector`: what `groupOperationsByBlock` of
-- workers/haf-projector/src/sync/haf-projector.ts makes of the operations of `getOperations`.
use hive_chameleon.Prelude.{
  ℕ, String, ◌≤◌, ◌≡◌, refl, sym, ◌∙◌, true, false, some, List, [], ◌∷◌, ◌++◌, arith, ◌==◌, str_eq,
  eq_refl, contains, filter, Bool-cases, inl, inr,
}
use hive_chameleon.Exec.{ok}
use hive_chameleon.Projector.Model.{HafOperation}
use hive_chameleon.Projector.Sync.{Groups, push_group, group_from, group_operations_by_block}
use hive_chameleon.Projector.Hafah.{HafahServer}
use hive_chameleon.Projector.Hafah.Pages.{get_operations}
use hive_chameleon.Projector.Hafah.Pages.Order.{count_id}
use hive_chameleon.Projector.Hafah.Pages.Fetched.{get_operations-IsOperations}

abbrev pub operations_of_block : ℕ → List HafOperation → List HafOperation
operations_of_block n = filter (λ o. n == o.block_number)

append_assoc :
    (xs : List HafOperation) (o : HafOperation) (ys : List HafOperation)
    → (xs ++ o ∷ []) ++ ys ≡ xs ++ o ∷ ys
append_assoc [] o ys = refl
append_assoc (x ∷ xs) o ys = rw (append_assoc xs o ys) refl

append_nil : (xs : List HafOperation) → xs ++ [] ≡ xs
append_nil [] = refl
append_nil (x ∷ xs) = rw (append_nil xs) refl

pushed :
    (grouped : Groups) (o : HafOperation) (os : List HafOperation) (n : ℕ)
    → push_group grouped o n ++ operations_of_block n os
      ≡ grouped n ++ operations_of_block n (o ∷ os)
pushed grouped o os n = elim (Bool-cases (n == o.block_number)) [
  | inl e ↦ rw e (append_assoc (grouped n) o (operations_of_block n os))
  | inr e ↦ rw e refl
]

unseen :
    (seen : List String) (o : HafOperation) (os : List HafOperation)
    → ((id : String) → count_id id (o ∷ os) ≤ 1)
    → ((id : String) → contains seen id ≡ true → count_id id (o ∷ os) ≡ 0)
    → (contains seen o.source_operation_id ≡ false)
      × ((id : String) → contains (o.source_operation_id ∷ seen) id ≡ true → count_id id os ≡ 0)
      × ((id : String) → count_id id os ≤ 1)
unfolding count_id
unseen seen o os once fresh = (
  elim (Bool-cases (contains seen o.source_operation_id)) [
    | inl e ↦ absurd (ground (arith, fresh o.source_operation_id e, eq_refl o.source_operation_id))
    | inr e ↦ e
  ],
  (λ id h. elim (Bool-cases (str_eq o.source_operation_id id)) [
    | inl e ↦ ground (arith, e, once id)
    | inr e ↦ ground (arith, e, h, fresh id (ground (arith, e, h)))
  ]),
  λ id. ground (arith, once id),
)

grouped_from :
    (seen : List String) (grouped : Groups) (os : List HafOperation)
    → ((id : String) → count_id id os ≤ 1)
    → ((id : String) → contains seen id ≡ true → count_id id os ≡ 0)
    → (groups : Groups) × (group_from seen grouped os ≡ ok groups)
      × ((n : ℕ) → groups n ≡ grouped n ++ operations_of_block n os)
unfolding group_from
grouped_from seen grouped [] once fresh = (grouped, refl, λ n. sym (append_nil (grouped n)))
grouped_from seen grouped (o ∷ os) once fresh =
    let (new, fresh', once') = unseen seen o os once fresh in
    let (groups, run, shown) =
      grouped_from (o.source_operation_id ∷ seen) (push_group grouped o) os once' fresh' in
    (groups, rw new run, λ n. shown n ∙ pushed grouped o os n)

-- The projector never refuses the operations of a range for an id that stands twice in them: it
-- groups them, and the group of a block is the operations of that block, in their order.
pub group_operations_by_block-get_operations :
    (server : HafahServer) (fuel tick from_block to_block : ℕ) (os : List HafOperation)
    → get_operations server fuel tick from_block to_block ≡ some (ok os)
    → (groups : Groups) × (group_operations_by_block os ≡ ok groups)
      × ((n : ℕ) → groups n ≡ operations_of_block n os)
unfolding group_operations_by_block
group_operations_by_block-get_operations server fuel tick from_block to_block os h =
    let (le, good) = get_operations-IsOperations server fuel tick from_block to_block os h in
    grouped_from [] (λ n. []) os good.unique (λ id none. absurd (ground (arith, none)))
