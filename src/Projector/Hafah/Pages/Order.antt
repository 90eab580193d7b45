-- ===== src/Projector/Hafah/Pages/Order.antt =====
-- The laws of the map and of the sort of `getOperations`.
use hive_chameleon.Prelude.{
  ◌<◌, ◌≤◌, ◌⊎◌, ltb, ℕ, zero, suc, String, ◌≡◌, refl, true, false, List, [], ◌∷◌, arith, ◌==◌,
  ◌&&◌, str_eq, eq_iff, All, map_set, if◌then◌else◌, Bool-cases, inl, inr,
}
use hive_chameleon.Projector.Model.{HafOperation}
use hive_chameleon.Projector.Hafah.Pages.{
  Operations, comes_later, place, sorted_operations, values_of,
}

-- In the order of the blocks, and in a block in the order of the indices.
abbrev IsInOrder : HafOperation → HafOperation → Type 0
IsInOrder o p =
    (o.block_number < p.block_number)
    ⊎ ((o.block_number ≡ p.block_number) × (o.operation_index ≤ p.operation_index))

abbrev pub IsBefore : HafOperation → List HafOperation → Type 0
IsBefore o [] = Unit
IsBefore o (p ∷ ps) = IsInOrder o p

abbrev pub IsSorted : List HafOperation → Type 0
IsSorted [] = Unit
IsSorted (o ∷ os) = IsBefore o os × IsSorted os

-- How many operations have a source id.
unfoldable pub count_id : String → List HafOperation → ℕ
count_id id [] = zero
count_id id (o ∷ os) =
    let rest = count_id id os in if str_eq o.source_operation_id id then suc rest else rest

count_id-place :
    (id : String) (o : HafOperation) (os : List HafOperation)
    → count_id id (place o os) ≡ count_id id (o ∷ os)
unfolding count_id place
count_id-place id o [] = refl
count_id-place id o (p ∷ ps) = ground (arith, count_id-place id o ps)

pub count_id-sorted_operations :
    (id : String) (os : List HafOperation) → count_id id (sorted_operations os) ≡ count_id id os
unfolding count_id sorted_operations
count_id-sorted_operations id [] = refl
count_id-sorted_operations id (o ∷ os) =
    ground (arith, count_id-place id o (sorted_operations os), count_id-sorted_operations id os)

All-place :
    (P : HafOperation → Type 0) (o : HafOperation) (os : List HafOperation)
    → P o
    → All P os
    → All P (place o os)
unfolding place
All-place P o [] h hs = (h, tt)
All-place P o (p ∷ ps) h hs = elim (Bool-cases (comes_later o p)) [
  | inl e ↦ rw e (hs.0, All-place P o ps h hs.1)
  | inr e ↦ rw e (h, hs)
]

pub All-sorted_operations :
    (P : HafOperation → Type 0) (os : List HafOperation) → All P os → All P (sorted_operations os)
unfolding sorted_operations
All-sorted_operations P [] hs = tt
All-sorted_operations P (o ∷ os) hs =
    All-place P o (sorted_operations os) hs.0 (All-sorted_operations P os hs.1)

asym : (o p : HafOperation) → comes_later o p ≡ true → comes_later p o ≡ false
unfolding comes_later
asym o p h = ground arith

comes_later-IsInOrder : (o p : HafOperation) → comes_later o p ≡ false → IsInOrder o p
unfolding comes_later
comes_later-IsInOrder o p h = elim (Bool-cases (ltb o.block_number p.block_number)) [
  | inl e ↦ inl (ground (arith, e))
  | inr e ↦ inr (ground (arith, e, h), ground (arith, e, h))
]

IsBefore-place :
    (p o : HafOperation) (os : List HafOperation)
    → IsInOrder p o
    → IsBefore p os
    → IsBefore p (place o os)
unfolding place
IsBefore-place p o [] h hs = h
IsBefore-place p o (q ∷ qs) h hs = elim (Bool-cases (comes_later o q)) [
  | inl e ↦ rw e hs
  | inr e ↦ rw e h
]

IsSorted-place : (o : HafOperation) (os : List HafOperation) → IsSorted os → IsSorted (place o os)
unfolding place
IsSorted-place o [] h = (tt, tt)
IsSorted-place o (p ∷ ps) h = elim (Bool-cases (comes_later o p)) [
  | inl e ↦
      rw e (
        IsBefore-place p o ps (comes_later-IsInOrder p o (asym o p e)) h.0,
        IsSorted-place o ps h.1,
      )
  | inr e ↦ rw e (comes_later-IsInOrder o p e, h)
]

pub IsSorted-sorted_operations : (os : List HafOperation) → IsSorted (sorted_operations os)
unfolding sorted_operations
IsSorted-sorted_operations [] = tt
IsSorted-sorted_operations (o ∷ os) =
    IsSorted-place o (sorted_operations os) (IsSorted-sorted_operations os)

-- The map from source ids holds an operation under its own id.
abbrev pub IsKeyed : Operations → Type 0
IsKeyed = All (λ entry. entry.1.source_operation_id ≡ entry.0)

pub count_id-map_set :
    (operations : Operations) (id : String) (o : HafOperation)
    → IsKeyed operations
    → count_id id (values_of (map_set operations o.source_operation_id o)) ≡ (
        let before = count_id id (values_of operations) in
        if str_eq o.source_operation_id id && before == 0 then 1 else before)
unfolding count_id map_set
count_id-map_set [] id o keyed = ground arith
count_id-map_set ((k, p) ∷ rest) id o keyed = ground (
  arith,
  keyed.0,
  count_id-map_set rest id o keyed.1,
  eq_iff k o.source_operation_id,
  eq_iff k id,
  eq_iff o.source_operation_id id,
)

pub IsKeyed-map_set :
    (operations : Operations) (o : HafOperation)
    → IsKeyed operations
    → IsKeyed (map_set operations o.source_operation_id o)
unfolding map_set
IsKeyed-map_set [] o keyed = (refl, tt)
IsKeyed-map_set ((k, p) ∷ rest) o keyed = elim (Bool-cases (str_eq k o.source_operation_id)) [
  | inl e ↦ rw e (ground (arith, e, eq_iff k o.source_operation_id), keyed.1)
  | inr e ↦ rw e (keyed.0, IsKeyed-map_set rest o keyed.1)
]

pub All-map_set :
    (P : HafOperation → Type 0) (operations : Operations) (key : String) (o : HafOperation)
    → All P (values_of operations)
    → P o
    → All P (values_of (map_set operations key o))
unfolding map_set
All-map_set P [] key o hs h = (h, tt)
All-map_set P ((k, p) ∷ rest) key o hs h = elim (Bool-cases (str_eq k key)) [
  | inl e ↦ rw e (h, hs.1)
  | inr e ↦ rw e (hs.0, All-map_set P rest key o hs.1 h)
]
