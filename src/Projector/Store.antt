-- ===== src/Projector/Store.antt =====
-- workers/haf-projector/src/store/projection-store.ts: the operations that the projector needs of
-- a store, and what they promise of the view that it keeps, a cursor and a chain of current
-- checkpoints for each source. A promise that is rejected is an `err`.
use hive_chameleon.Prelude.{
  ℕ, String, ◌+◌, ◌≤◌, ◌≡◌, ◌⊎◌, false, ◌&&◌, Option, none, some, List, ltb, leb, ◌==◌, str_eq,
  if◌then◌else◌, max,
}
use hive_chameleon.Exec.{Exec}
use hive_chameleon.Exec.Triple.{Post}
use hive_chameleon.Projector.Model.{
  HafBlock, ProjectionCursor, BlockCheckpoint, OperationDecision, Failure, included, irreversible,
  is_included,
}

pub record ProjectionStore (S : Type 0) : Type 0 where
  pub get_cursor : String → Exec S Failure ProjectionCursor
  pub get_current_checkpoint : String → ℕ → Exec S Failure (Option BlockCheckpoint)
  pub apply_block : String → HafBlock → List OperationDecision → String → Exec S Failure (Unit {0})
  pub revert_after : String → ℕ → String → Exec S Failure (Unit {0})
  pub finalize_through : String → ℕ → String → Exec S Failure (Unit {0})

-- `null`, or the identity of the parent.
abbrev pub ParentMatches : Option String → String → Type 0
ParentMatches known previous_id = (known ≡ none) ⊎ (known ≡ some previous_id)

abbrev pub fresh_checkpoint : String → HafBlock → String → BlockCheckpoint
fresh_checkpoint source block observed_at = record {
  block = block;
  source = source;
  state = included;
  included_at = observed_at;
  irreversible_at = none;
  reverted_at = none;
}

abbrev pub mark_irreversible : String → BlockCheckpoint → BlockCheckpoint
mark_irreversible at_time c =
    if is_included c.state
    then record c { state = irreversible; irreversible_at = some at_time }
    else c

abbrev pub mark_irreversible? : String → Option BlockCheckpoint → Option BlockCheckpoint
mark_irreversible? at_time none = none
mark_irreversible? at_time (some c) = some (mark_irreversible at_time c)

abbrev pub checkpoint_id? : Option BlockCheckpoint → Option String
checkpoint_id? none = none
checkpoint_id? (some c) = some c.id

-- What a store shows: the cursor of a source, its current checkpoint at a height, and how it gives
-- back a time that was written.
pub record View (S : Type 0) : Type 0 where
  pub written : String → String
  pub cursor : S → String → ProjectionCursor
  pub checkpoint : S → String → ℕ → Option BlockCheckpoint

module _ {S : Type 0} (v : View S) (source : String) where
  abbrev pub written_checkpoint : String → HafBlock → String → BlockCheckpoint
  written_checkpoint k block at_time =
      fresh_checkpoint k (record block { timestamp = v.written block.timestamp })
        (v.written at_time)

  pub record Applied (block : HafBlock) (at_time : String) (s s' : S) : Type 0 where
    pub follows : block.number ≡ (v.cursor s source).last_processed_block + 1
    pub linked : ParentMatches (v.cursor s source).last_processed_block_id block.previous_id
    pub cursors :
        (k : String)
        → v.cursor s' k ≡ (
            if str_eq source k
            then record (v.cursor s source) {
              last_processed_block = block.number;
              last_processed_block_id = some block.id;
            }
            else v.cursor s k)
    pub chain :
        (k : String) (n : ℕ)
        → v.checkpoint s' k n ≡ (
            if str_eq source k && (n == block.number)
            then some (written_checkpoint source block at_time)
            else v.checkpoint s k n)

  -- After an error nothing that the cursors cover has changed.
  pub record Unmoved (s s' : S) : Type 0 where
    pub cursors : (k : String) → v.cursor s' k ≡ v.cursor s k
    pub covered :
        (n : ℕ)
        → n ≤ (v.cursor s source).last_processed_block
        → v.checkpoint s' source n ≡ v.checkpoint s source n
    pub others :
        (k : String) (n : ℕ) → str_eq source k ≡ false → v.checkpoint s' k n ≡ v.checkpoint s k n

  pub record Reverted (ancestor : ℕ) (s s' : S) : Type 0 where
    pub allowed : (v.cursor s source).last_irreversible_block ≤ ancestor
    pub cursors :
        (k : String)
        → v.cursor s' k ≡ (
            if str_eq source k
            then record (v.cursor s source) {
              last_processed_block = ancestor;
              last_processed_block_id = checkpoint_id? (v.checkpoint s source ancestor);
            }
            else v.cursor s k)
    pub chain :
        (k : String) (n : ℕ)
        → v.checkpoint s' k n
          ≡ (if str_eq source k && ltb ancestor n then none else v.checkpoint s k n)

  pub record Finalized (block_number : ℕ) (at_time : String) (s s' : S) : Type 0 where
    pub processed : block_number ≤ (v.cursor s source).last_processed_block
    pub cursors :
        (k : String)
        → v.cursor s' k ≡ (
            if str_eq source k
            then record (v.cursor s source) {
              last_irreversible_block =
                  max (v.cursor s source).last_irreversible_block block_number;
            }
            else v.cursor s k)
    pub chain :
        (k : String) (n : ℕ)
        → v.checkpoint s' k n ≡ (
            if str_eq source k && leb n block_number
            then mark_irreversible? (v.written at_time) (v.checkpoint s k n)
            else v.checkpoint s k n)

-- What every implementation promises.
pub record IsProjectionStore {S : Type 0} (st : ProjectionStore S) : Type 0 where
  pub view : View S
  pub get_cursor_lem :
      (source : String) (s : S)
      → Post
          (λ c s'. (s' ≡ s) × (c ≡ view.cursor s source))
          (λ e s'. s' ≡ s)
          (st.get_cursor source s)
  pub get_current_checkpoint_lem :
      (source : String) (n : ℕ) (s : S)
      → Post
          (λ c s'. (s' ≡ s) × (c ≡ view.checkpoint s source n))
          (λ e s'. s' ≡ s)
          (st.get_current_checkpoint source n s)
  pub apply_block_lem :
      (source : String) (block : HafBlock) (decisions : List OperationDecision) (at_time : String)
      (s : S)
      → Post
          (λ _ s'. Applied view source block at_time s s')
          (λ e s'. Unmoved view source s s')
          (st.apply_block source block decisions at_time s)
  pub revert_after_lem :
      (source : String) (ancestor : ℕ) (at_time : String) (s : S)
      → Post
          (λ _ s'. Reverted view source ancestor s s')
          (λ e s'. s' ≡ s)
          (st.revert_after source ancestor at_time s)
  pub finalize_through_lem :
      (source : String) (block_number : ℕ) (at_time : String) (s : S)
      → Post
          (λ _ s'. Finalized view source block_number at_time s s')
          (λ e s'. s' ≡ s)
          (st.finalize_through source block_number at_time s)
