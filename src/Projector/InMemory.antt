-- ===== src/Projector/InMemory.antt =====
-- workers/haf-projector/src/testing/in-memory-store.ts: `InMemoryProjectionStore`.
-- An array grows at its end, and `cursors` is an association list.
pub mod Laws
pub mod Reinclusion
use hive_chameleon.Prelude.{
  ℕ, String, ◌+◌, Bool, false, not, ◌&&◌, Option, none, some, List, [], ◌∷◌, ◌++◌, ltb, leb, ◌==◌,
  str_eq, is_some, find, map_get, map_set, if◌then◌else◌, max,
}
use hive_chameleon.Exec.{Result, ok, err, Exec}
use hive_chameleon.Projector.Model.{
  HafBlock, ProjectionCursor, BlockCheckpoint, OperationDecision, StoredOperationDecision, Failure,
  projector_error, cursor_conflict, irreversible_fork, included, irreversible, reverted,
  is_included, is_reverted,
}
use hive_chameleon.Projector.Store.{ProjectionStore, fresh_checkpoint, checkpoint_id?}

pub record InMemoryProjectionStore : Type 0 where
  pub checkpoints : List BlockCheckpoint
  pub operations : List StoredOperationDecision
  pub cursors : List (String × ProjectionCursor)

abbrev pub initial_cursor : String → ProjectionCursor
initial_cursor source = record {
  source = source;
  last_processed_block = 0;
  last_processed_block_id = none;
  last_irreversible_block = 0;
}

abbrev cursor_or_initial : String → Option ProjectionCursor → ProjectionCursor
cursor_or_initial source none = initial_cursor source
cursor_or_initial source (some c) = c

unfoldable pub cursor_of : InMemoryProjectionStore → String → ProjectionCursor
cursor_of s source = cursor_or_initial source (map_get s.cursors source)

-- The predicate of `getCurrentCheckpoint`.
abbrev pub is_current_at : String → ℕ → BlockCheckpoint → Bool
is_current_at source n c = str_eq c.source source && (c.number == n && not (is_reverted c.state))

unfoldable pub current_checkpoint : InMemoryProjectionStore → String → ℕ → Option BlockCheckpoint
current_checkpoint s source n = find (is_current_at source n) s.checkpoints

unfoldable pub get_cursor : String → Exec InMemoryProjectionStore Failure ProjectionCursor
get_cursor source s = (ok (cursor_of s source), s)

unfoldable pub get_current_checkpoint :
    String → ℕ → Exec InMemoryProjectionStore Failure (Option BlockCheckpoint)
get_current_checkpoint source n s = (ok (current_checkpoint s source n), s)

-- `values.forEach((value, index) => { if (predicate(value)) values[index] = replacement(value) })`.
unfoldable pub replace_where {ℓ} : {T : Type ℓ} → List T → (T → Bool) → (T → T) → List T
replace_where [] predicate replacement = []
replace_where (value ∷ values) predicate replacement =
    (if predicate value then replacement value else value)
    ∷ replace_where values predicate replacement

abbrev pub stored_id : StoredOperationDecision → String
stored_id stored = stored.decision.evidence.source_operation_id

unfoldable pub is_stored : OperationDecision → InMemoryProjectionStore → Bool
is_stored decision s =
    is_some (
      find (λ stored. str_eq (stored_id stored) decision.evidence.source_operation_id) s.operations)

unfoldable pub push_operation :
    String → OperationDecision → InMemoryProjectionStore → InMemoryProjectionStore
push_operation source decision s = record s {
  operations =
      s.operations
      ++ record {
        decision = decision;
        source = source;
        state = included;
        irreversible_at = none;
        reverted_at = none;
      }
        ∷ [];
}

-- The loop over `decisions`: the operations stored before a duplicate stay stored.
unfoldable pub push_decisions :
    String → List OperationDecision → Exec InMemoryProjectionStore Failure (Unit {0})
push_decisions source [] s = (ok tt, s)
push_decisions source (decision ∷ decisions) s =
    let rest = push_decisions source decisions (push_operation source decision s) in
    if is_stored decision s then (err (projector_error cursor_conflict), s) else rest

abbrev pub parent_differs : Option String → String → Bool
parent_differs none previous_id = false
parent_differs (some known) previous_id = not (str_eq previous_id known)

-- The end of `applyBlock`: the cursor is set only if every decision was stored.
unfoldable pub set_applied_cursor :
    String
    → HafBlock
    → ProjectionCursor
    → Result Failure (Unit {0}) × InMemoryProjectionStore
    → Result Failure (Unit {0}) × InMemoryProjectionStore
set_applied_cursor source block cursor (err e, s) = (err e, s)
set_applied_cursor source block cursor (ok _, s) = (
  ok tt,
  record s {
    cursors = map_set s.cursors source (record cursor {
      last_processed_block = block.number;
      last_processed_block_id = some block.id;
    });
  },
)

unfoldable pub apply_block :
    String
    → HafBlock
    → List OperationDecision
    → String
    → Exec InMemoryProjectionStore Failure (Unit {0})
unfolding set_applied_cursor
apply_block source block decisions observed_at s =
    let cursor = cursor_of s source in
    if not (block.number == cursor.last_processed_block + 1)
    then (err (projector_error cursor_conflict), s)
    else if parent_differs cursor.last_processed_block_id block.previous_id
    then (err (projector_error cursor_conflict), s)
    else if is_some (current_checkpoint s source block.number)
    then (err (projector_error cursor_conflict), s)
    else set_applied_cursor source block cursor (
        push_decisions source decisions (record s {
          checkpoints = s.checkpoints ++ fresh_checkpoint source block observed_at ∷ [];
        }))

-- `revertAfter` past its guard.
unfoldable pub reverted_store :
    String → ℕ → String → InMemoryProjectionStore → InMemoryProjectionStore
reverted_store source ancestor reverted_at s =
    let checkpoints =
      replace_where s.checkpoints
        (λ c. str_eq c.source source && (ltb ancestor c.number && not (is_reverted c.state)))
        (λ c. record c { state = reverted; reverted_at = some reverted_at }) in
    let operations =
      replace_where s.operations
        (λ o.
          str_eq o.source source
          && (ltb ancestor o.decision.evidence.block_number && not (is_reverted o.state)))
        (λ o. record o { state = reverted; reverted_at = some reverted_at }) in
    let s' = record s { checkpoints = checkpoints; operations = operations } in
    record s' {
      cursors = map_set s.cursors source (record (cursor_of s source) {
        last_processed_block = ancestor;
        last_processed_block_id = checkpoint_id? (current_checkpoint s' source ancestor);
      });
    }

unfoldable pub revert_after : String → ℕ → String → Exec InMemoryProjectionStore Failure (Unit {0})
revert_after source ancestor reverted_at s =
    if ltb ancestor (cursor_of s source).last_irreversible_block
    then (err (projector_error irreversible_fork), s)
    else (ok tt, reverted_store source ancestor reverted_at s)

-- `finalizeThrough` past its guard.
unfoldable pub finalized_store :
    String → ℕ → String → InMemoryProjectionStore → InMemoryProjectionStore
finalized_store source block_number irreversible_at s =
    let cursor = cursor_of s source in
    record {
      checkpoints =
          replace_where s.checkpoints
            (λ c. str_eq c.source source && (leb c.number block_number && is_included c.state))
            (λ c. record c { state = irreversible; irreversible_at = some irreversible_at });
      operations =
          replace_where s.operations
            (λ o.
              str_eq o.source source
              && (leb o.decision.evidence.block_number block_number && is_included o.state))
            (λ o. record o { state = irreversible; irreversible_at = some irreversible_at });
      cursors = map_set s.cursors source (record cursor {
        last_irreversible_block = max cursor.last_irreversible_block block_number;
      });
    }

unfoldable pub finalize_through :
    String → ℕ → String → Exec InMemoryProjectionStore Failure (Unit {0})
finalize_through source block_number irreversible_at s =
    if ltb (cursor_of s source).last_processed_block block_number
    then (err (projector_error cursor_conflict), s)
    else (ok tt, finalized_store source block_number irreversible_at s)

unfoldable pub in_memory : ProjectionStore InMemoryProjectionStore
in_memory = record {
  get_cursor = get_cursor;
  get_current_checkpoint = get_current_checkpoint;
  apply_block = apply_block;
  revert_after = revert_after;
  finalize_through = finalize_through;
}
