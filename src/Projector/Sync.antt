-- ===== src/Projector/Sync.antt =====
-- workers/haf-projector/src/sync/haf-projector.ts: `ForkAwareHafProjector`.
-- The source is another system, which may answer each request differently, since a fork can happen
-- between two requests: a request is answered at a tick, and each request takes one. A request that
-- fails is an `err`. `Promise.all` makes its two requests in order. The clock is read at the tick.
pub mod Run
pub mod Safety
pub mod Steps
pub mod Loop
pub mod Finality
pub mod Report
use hive_chameleon.Prelude.{
  ℕ, zero, suc, String, ◌+◌, ◌-◌, Bool, true, false, not, ◌&&◌, ◌||◌, Option, none, some, List, [],
  ◌∷◌, ◌++◌, ltb, leb, ◌==◌, str_eq, same_text?, length, contains, if◌then◌else◌, min, max,
}
use hive_chameleon.Exec.{Result, ok, err, Exec, pure, throw, lift, reads, ◌>>=◌, ◌>>◌}
use hive_chameleon.Projector.Model.{
  HafBlock, HafIrreversibleBlock, HafOperation, ProjectionCursor, BlockCheckpoint,
  OperationDecision, Failure, projector_error, invalid_source_response, irreversible_fork,
  reorg_too_deep, source_divergence,
}
use hive_chameleon.Projector.Store.{ProjectionStore}

-- workers/haf-projector/src/source/haf-source.ts; the first number of a request is its tick.
pub record HafSource : Type 0 where
  pub source_name : String
  pub get_head_block_number : ℕ → Result Failure ℕ
  pub get_last_irreversible_block : ℕ → Result Failure HafIrreversibleBlock
  pub get_block : ℕ → ℕ → Result Failure HafBlock
  pub get_operations : ℕ → ℕ → ℕ → Result Failure (List HafOperation)

pub record HafProjectorOptions : Type 0 where
  pub max_blocks_per_run : ℕ
  pub max_reorg_depth : ℕ
  pub now : ℕ → String

pub record HafProjectorRunResult : Type 0 where
  pub applied_blocks : ℕ
  pub finalized_through : ℕ
  pub reverted_to : Option ℕ
  pub source_head : ℕ

unfoldable pub same_block : HafBlock → HafBlock → Bool
same_block left right =
    left.number == right.number
    && (str_eq left.id right.id
        && (str_eq left.previous_id right.previous_id && str_eq left.timestamp right.timestamp))

-- The callback of `beforeOperations.some`.
unfoldable pub some_differs : List HafBlock → List HafBlock → Bool
some_differs [] after = false
some_differs (block ∷ blocks) [] = true
some_differs (block ∷ blocks) (after ∷ afters) =
    not (same_block block after) || some_differs blocks afters

unfoldable pub assert_stable_snapshot : List HafBlock → List HafBlock → Result Failure (Unit {0})
unfolding some_differs same_block
assert_stable_snapshot before after =
    if not (length before == length after) || some_differs before after
    then err (projector_error source_divergence)
    else ok tt

-- `grouped` is the `Map`, read with `?? []`.
abbrev pub Groups : Type 0
Groups = ℕ → List HafOperation

abbrev pub push_group : Groups → HafOperation → Groups
push_group grouped operation n =
    if n == operation.block_number then grouped n ++ operation ∷ [] else grouped n

unfoldable pub group_from : List String → Groups → List HafOperation → Result Failure Groups
group_from source_ids grouped [] = ok grouped
group_from source_ids grouped (operation ∷ operations) =
    if contains source_ids operation.source_operation_id
    then err (projector_error invalid_source_response)
    else group_from (operation.source_operation_id ∷ source_ids) (push_group grouped operation)
        operations

unfoldable pub group_operations_by_block : List HafOperation → Result Failure Groups
unfolding group_from
group_operations_by_block = group_from [] (λ n. [])

abbrev pub push_decision? :
    Option OperationDecision
    → Result Failure (List OperationDecision)
    → Result Failure (List OperationDecision)
push_decision? none rest = rest
push_decision? (some decision) (ok rest) = ok (decision ∷ rest)
push_decision? (some decision) (err e) = err e

module _ (validate : HafOperation → HafBlock → Option OperationDecision) where
  unfoldable pub validate_from :
      HafBlock → List String → List HafOperation → Result Failure (List OperationDecision)
  validate_from block source_ids [] = ok []
  validate_from block source_ids (operation ∷ operations) =
      if not (operation.block_number == block.number)
        || not (str_eq operation.timestamp block.timestamp)
      then err (projector_error invalid_source_response)
      else if contains source_ids operation.source_operation_id
      then err (projector_error invalid_source_response)
      else push_decision? (validate operation block)
          (validate_from block (operation.source_operation_id ∷ source_ids) operations)

  unfoldable pub validate_block_operations :
      HafBlock → List HafOperation → Result Failure (List OperationDecision)
  unfolding validate_from
  validate_block_operations block operations = validate_from block [] operations

pub record World (S : Type 0) : Type 0 where
  pub store : S
  pub tick : ℕ

-- How the loop over the blocks of a cycle ends: after its last block, or in a fork.
pub data LoopExit : Type 0 where
  finished : ProjectionCursor → ℕ → LoopExit
  forked : HafProjectorRunResult → LoopExit

abbrev pub parent_changed : Option String → HafBlock → Bool
parent_changed none block = false
parent_changed (some id) block = not (str_eq block.previous_id id)

abbrev pub follows_previous : Option HafBlock → HafBlock → Bool
follows_previous none block = true
follows_previous (some previous) block = str_eq block.previous_id previous.id

abbrev pub stored_matches : Option BlockCheckpoint → HafBlock → Bool
stored_matches none current = false
stored_matches (some stored) current = str_eq stored.id current.id

abbrev pub stored_same_block : Option BlockCheckpoint → HafBlock → Bool
stored_same_block none current = false
stored_same_block (some stored) current = same_block stored.block current
