-- ===== src/Projector/Sync/Run.antt =====
-- The methods of `ForkAwareHafProjector`, over any store, source, validator and options.
use hive_chameleon.Prelude.{
  ℕ, zero, suc, ◌+◌, ◌-◌, Bool, not, ◌||◌, Option, none, some, List, [], ◌∷◌, ltb, leb, ◌==◌,
  same_text?, str_eq, min, max, String,
}
use hive_chameleon.Exec.{Result, Exec, pure, throw, lift, reads, branch, unless, ◌>>=◌, ◌>>◌}
use hive_chameleon.Projector.Model.{
  HafBlock, HafIrreversibleBlock, HafOperation, ProjectionCursor, OperationDecision, Failure,
  projector_error, irreversible_fork, reorg_too_deep, source_divergence,
}
use hive_chameleon.Projector.Store.{ProjectionStore}
use hive_chameleon.Projector.Sync.{
  HafSource, HafProjectorOptions, HafProjectorRunResult, World, LoopExit, finished, forked, Groups,
  assert_stable_snapshot, group_operations_by_block, validate_block_operations, parent_changed,
  follows_previous, stored_matches, stored_same_block,
}

pub record ForkAwareHafProjector (S : Type 0) : Type 0 where
  pub source : HafSource
  pub store : ProjectionStore S
  pub validate : HafOperation → HafBlock → Option OperationDecision
  pub options : HafProjectorOptions

abbrev pub moved : ProjectionCursor → HafBlock → ProjectionCursor
moved cursor block = record cursor {
  last_processed_block = block.number;
  last_processed_block_id = some block.id;
}

abbrev pub lower_bound : ℕ → ℕ → ℕ
lower_bound start_height depth = start_height - depth

-- `Math.min(sourceHead, cursor.lastProcessedBlock + maxBlocksPerRun)`.
abbrev pub target_of : ProjectionCursor → ℕ → ℕ → ℕ
target_of cursor source_head max_blocks = min source_head (cursor.last_processed_block + max_blocks)

abbrev pub finalizable_of : HafIrreversibleBlock → ProjectionCursor → ℕ
finalizable_of source_irreversible cursor =
    min source_irreversible.number cursor.last_processed_block

abbrev pub report : ℕ → ℕ → Option ℕ → ℕ → HafProjectorRunResult
report applied_blocks finalized_through reverted_to source_head = record {
  applied_blocks = applied_blocks;
  finalized_through = finalized_through;
  reverted_to = reverted_to;
  source_head = source_head;
}

-- The guards of `assertFinalityAgreement` before its first request.
unfoldable pub unanchored : HafIrreversibleBlock → ℕ → Bool
unanchored irreversible source_head =
    leb irreversible.number 0
    || (same_text? irreversible.id none || ltb source_head irreversible.number)

module _ {S A : Type 0} where
  -- A request to the source.
  unfoldable pub ask : (ℕ → Result Failure A) → Exec (World S) Failure A
  ask request w = (request w.tick, record w { tick = w.tick + 1 })

  -- A call of the store.
  unfoldable pub call : Exec S Failure A → Exec (World S) Failure A
  call m w = let (r, s) = m w.store in (r, record w { store = s })

module _ {S : Type 0} (p : ForkAwareHafProjector S) where
  abbrev pub name : String
  name = p.source.source_name

  -- `this.now().toISOString()`.
  unfoldable pub stamp : Exec (World S) Failure String
  stamp = reads (λ w. p.options.now w.tick)

  -- The loop of `readBlockSnapshot`, by the rounds left.
  unfoldable pub read_blocks : ℕ → ℕ → Option HafBlock → Exec (World S) Failure (List HafBlock)
  read_blocks zero block_number previous = pure []
  read_blocks (suc rounds) block_number previous = do
    block ← ask (λ tick. p.source.get_block tick block_number)
    unless (not (block.number == block_number) || not (follows_previous previous block))
        (projector_error source_divergence)
        do rest ← read_blocks rounds (block_number + 1) (some block); pure (block ∷ rest)

  unfoldable pub read_block_snapshot : ℕ → ℕ → Exec (World S) Failure (List HafBlock)
  read_block_snapshot from_block to_block = read_blocks (to_block + 1 - from_block) from_block none

  unfoldable pub revert_to : ℕ → Exec (World S) Failure ℕ
  revert_to block_number = do
    at_time ← stamp
    call (p.store.revert_after name block_number at_time)
    pure block_number

  -- The loop of `reconcileFork`, by the rounds left. Above 0 the next height is one below.
  unfoldable pub reconcile_from : ProjectionCursor → ℕ → ℕ → Exec (World S) Failure ℕ
  reconcile_from cursor zero block_number = throw (projector_error reorg_too_deep)
  reconcile_from cursor (suc rounds) block_number =
      branch (block_number == 0)
        (unless (ltb 0 cursor.last_irreversible_block) (projector_error irreversible_fork)
          (revert_to 0))
        do
          stored ← call (p.store.get_current_checkpoint name block_number)
          current ← ask (λ tick. p.source.get_block tick block_number)
          branch (stored_matches stored current)
              (unless (ltb block_number cursor.last_irreversible_block)
                (projector_error irreversible_fork) (revert_to block_number))
              (unless (leb block_number cursor.last_irreversible_block)
                (projector_error irreversible_fork)
                (reconcile_from cursor rounds (block_number - 1)))

  unfoldable pub reconcile_fork : ProjectionCursor → ℕ → Exec (World S) Failure ℕ
  reconcile_fork cursor start_height =
      reconcile_from cursor (start_height + 1 - lower_bound start_height p.options.max_reorg_depth)
        start_height

  unfoldable pub verify_against :
      ProjectionCursor → Option String → Exec (World S) Failure (Option ℕ)
  verify_against cursor none = pure none
  verify_against cursor (some id) = branch (cursor.last_processed_block == 0) (pure none) do
    current ← ask (λ tick. p.source.get_block tick cursor.last_processed_block)
    branch (str_eq current.id id) (pure none)
        do ancestor ← reconcile_fork cursor cursor.last_processed_block; pure (some ancestor)

  unfoldable pub verify_current_tip : ProjectionCursor → Exec (World S) Failure (Option ℕ)
  unfolding verify_against
  verify_current_tip cursor = verify_against cursor cursor.last_processed_block_id

  unfoldable pub assert_finality_agreement :
      HafIrreversibleBlock → ℕ → ℕ → Exec (World S) Failure (Unit {0})
  assert_finality_agreement irreversible finalizable source_head =
      unless (unanchored irreversible source_head) (projector_error source_divergence) do
        hafah_irreversible ← ask (λ tick. p.source.get_block tick irreversible.number)
        unless (not (same_text? (some hafah_irreversible.id) irreversible.id))
            (projector_error source_divergence)
            do
              stored ← call (p.store.get_current_checkpoint name finalizable)
              current ←
                  branch (finalizable == irreversible.number) (pure hafah_irreversible)
                    (ask (λ tick. p.source.get_block tick finalizable))
              unless (not (stored_same_block stored current)) (projector_error source_divergence)
                  (pure tt)

  unfoldable pub apply_one : HafBlock → List OperationDecision → Exec (World S) Failure (Unit {0})
  apply_one block decisions = do
    at_time ← stamp
    call (p.store.apply_block name block decisions at_time)

  unfoldable pub apply_fork : ℕ → ProjectionCursor → ℕ → HafBlock → Exec (World S) Failure LoopExit
  apply_fork source_head cursor applied_blocks block = do
    ancestor ← reconcile_fork cursor (block.number - 1)
    pure (forked (report applied_blocks cursor.last_irreversible_block (some ancestor) source_head))

  -- The loop over `afterOperations`.
  unfoldable pub apply_loop :
      Groups → ℕ → ProjectionCursor → ℕ → List HafBlock → Exec (World S) Failure LoopExit
  apply_loop operations_by_block source_head cursor applied_blocks [] =
      pure (finished cursor applied_blocks)
  apply_loop operations_by_block source_head cursor applied_blocks (block ∷ blocks) =
      branch (parent_changed cursor.last_processed_block_id block)
        (apply_fork source_head cursor applied_blocks block)
        do
          decisions ←
              lift (validate_block_operations p.validate block (operations_by_block block.number))
          apply_one block decisions
          apply_loop operations_by_block source_head (moved cursor block) (applied_blocks + 1)
              blocks

  -- The branch `target > cursor.lastProcessedBlock`.
  unfoldable pub apply_range : ProjectionCursor → ℕ → ℕ → ℕ → Exec (World S) Failure LoopExit
  apply_range cursor source_head first_block target = do
    before_operations ← read_block_snapshot first_block target
    operations ← ask (λ tick. p.source.get_operations tick first_block target)
    after_operations ← read_block_snapshot first_block target
    lift (assert_stable_snapshot before_operations after_operations)
    operations_by_block ← lift (group_operations_by_block operations)
    apply_loop operations_by_block source_head cursor 0 after_operations

  unfoldable pub apply_through : ProjectionCursor → ℕ → ℕ → Exec (World S) Failure LoopExit
  apply_through cursor source_head target =
      branch (ltb cursor.last_processed_block target)
        (apply_range cursor source_head (cursor.last_processed_block + 1) target)
        (pure (finished cursor 0))

  unfoldable pub finalize_to : HafIrreversibleBlock → ℕ → ℕ → Exec (World S) Failure (Unit {0})
  finalize_to source_irreversible source_head finalizable = do
    assert_finality_agreement source_irreversible finalizable source_head
    at_time ← stamp
    call (p.store.finalize_through name finalizable at_time)

  -- The end of `runOnce`, from `const finalizable`.
  unfoldable pub finalize_cycle :
      HafIrreversibleBlock → ℕ → ProjectionCursor → ℕ → Exec (World S) Failure HafProjectorRunResult
  finalize_cycle source_irreversible source_head cursor applied_blocks =
      let finalizable = finalizable_of source_irreversible cursor in
      let result =
        report applied_blocks (max cursor.last_irreversible_block finalizable) none source_head in
      branch (ltb cursor.last_irreversible_block finalizable)
        (finalize_to source_irreversible source_head finalizable >> pure result) (pure result)

  unfoldable pub end_cycle :
      HafIrreversibleBlock → ℕ → LoopExit → Exec (World S) Failure HafProjectorRunResult
  end_cycle source_irreversible source_head (forked result) = pure result
  end_cycle source_irreversible source_head (finished cursor applied_blocks) =
      finalize_cycle source_irreversible source_head cursor applied_blocks

  -- `runOnce` from the result of `verifyCurrentTip`.
  unfoldable pub continue_cycle :
      ProjectionCursor
      → ℕ
      → HafIrreversibleBlock
      → Option ℕ
      → Exec (World S) Failure HafProjectorRunResult
  continue_cycle cursor source_head source_irreversible (some tip_revert) =
      pure (report 0 cursor.last_irreversible_block (some tip_revert) source_head)
  continue_cycle cursor source_head source_irreversible none = do
    loop_exit ←
        apply_through cursor source_head (target_of cursor source_head p.options.max_blocks_per_run)
    end_cycle source_irreversible source_head loop_exit

  -- `runOnce` from its first request to the source.
  unfoldable pub run_from : ProjectionCursor → Exec (World S) Failure HafProjectorRunResult
  run_from cursor = do
    source_head ← ask p.source.get_head_block_number
    source_irreversible ← ask p.source.get_last_irreversible_block
    branch (ltb source_head cursor.last_processed_block)
        (pure (report 0 cursor.last_irreversible_block none source_head))
        do
          tip_revert ← verify_current_tip cursor
          continue_cycle cursor source_head source_irreversible tip_revert

  unfoldable pub run_once : Exec (World S) Failure HafProjectorRunResult
  run_once = do cursor ← call (p.store.get_cursor name); run_from cursor
