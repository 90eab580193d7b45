-- ===== src/Projector/Sync/Loop.antt =====
-- The loop of a cycle over the blocks that it read.
use hive_chameleon.Prelude.{
  ℕ, ◌+◌, ◌≤◌, ◌≡◌, refl, sym, subst, eq_refl, true, Option, none, some, List, [], ◌∷◌, arith, ltb,
  length, ◌-◌, ◌∙◌, ◌⊎◌, inl, inr,
}
use hive_chameleon.Exec.Triple.{
  Post-mono, Triple, Triple-pure, Triple-branch, Triple-given, Triple-pre, Triple-bind,
  Triple-bind-lift,
}
use hive_chameleon.Projector.Model.{HafBlock, ProjectionCursor, OperationDecision}
use hive_chameleon.Projector.Store.{IsProjectionStore}
use hive_chameleon.Projector.Chain.{
  Applied-IsChained, Applied-Extends, Unmoved-IsChained, Unmoved-Extends,
}
use hive_chameleon.Projector.Sync.{
  LoopExit, finished, forked, Groups, follows_previous, parent_changed,
}
use hive_chameleon.Projector.Sync.Run.{
  ForkAwareHafProjector, name, moved, report, read_block_snapshot, apply_one, apply_fork,
  apply_loop, apply_range, apply_through,
}
use hive_chameleon.Projector.Sync.Safety.{
  On, IsSafe, IsSynced, IsReconciled, Triple-call, Triple-ask-IsSynced, Triple-stamp,
}
use hive_chameleon.Projector.Sync.Steps.{
  IsAt, IsReported, IsSnapshot, Triple-read_blocks, Triple-reconcile_fork,
}

module _ {S : Type 0} (p : ForkAwareHafProjector S) (laws : IsProjectionStore p.store)
    (s₀ : S) where
  abbrev Safe : S → Type 0
  Safe = IsSafe p laws s₀

  abbrev Synced : ProjectionCursor → S → Type 0
  Synced = IsSynced p laws s₀

  -- The blocks of the loop follow its cursor: none was applied yet, or `previous` was the last.
  pub IsInStep : ProjectionCursor → ℕ → Option HafBlock → Type 0
  IsInStep cursor applied previous =
      (applied ≡ 0)
      ⊎ ((b : HafBlock) × (previous ≡ some b) × (cursor.last_processed_block_id ≡ some b.id))

  pub record HasApplied (cursor : ProjectionCursor) (applied total : ℕ) (s : S) : Type 0 where
    pub synced : Synced cursor s
    pub at_block : IsAt p laws s₀ cursor applied
    pub all_applied : applied ≡ total

  abbrev pub LoopEnds : ℕ → LoopExit → S → Type 0
  LoopEnds total (finished cursor applied) s = HasApplied cursor applied total s
  LoopEnds total (forked r) s = IsReported p laws s₀ r s

  pub Triple-apply_one :
      (cursor : ProjectionCursor) (block : HafBlock) (decisions : List OperationDecision)
      → Triple
          (On (Synced cursor))
          (apply_one p block decisions)
          (λ _. On (Synced (moved cursor block)))
          (λ e. On Safe)
  unfolding apply_one
  Triple-apply_one cursor block decisions =
      Triple-bind _ _ (Triple-stamp p laws s₀ (Synced cursor)) λ at_time.
        Triple-call (Synced cursor) (λ _. Synced (moved cursor block)) Safe _
          λ s y.
            Post-mono _
              (λ a s' r. record {
                safe = record {
                  chained = Applied-IsChained laws.view (name p) block at_time r y.safe.chained;
                  extends =
                      Applied-Extends laws.view (name p) block at_time r y.safe.chained
                        y.safe.extends;
                };
                same = ground (arith, r.cursors (name p), eq_refl (name p), y.same);
              })
              (λ e s' u. record {
                chained = Unmoved-IsChained laws.view (name p) u y.safe.chained;
                extends = Unmoved-Extends laws.view (name p) u y.safe.chained y.safe.extends;
              })
              (laws.apply_block_lem (name p) block decisions at_time s)

  -- A fork shows at the first block of a cycle or not at all, for the snapshot is linked.
  pub fork_at_start :
      (cursor : ProjectionCursor) (applied : ℕ) (previous : Option HafBlock) (block : HafBlock)
      → IsInStep cursor applied previous
      → follows_previous previous block ≡ true
      → parent_changed cursor.last_processed_block_id block ≡ true
      → applied ≡ 0
  unfolding IsInStep
  fork_at_start cursor applied previous block step follows changed = ground arith

  pub IsReconciled-IsReported :
      (cursor : ProjectionCursor) (applied ancestor source_head : ℕ) (s : S)
      → IsAt p laws s₀ cursor applied
      → applied ≡ 0
      → IsReconciled p laws s₀ cursor ancestor s
      → IsReported p laws s₀
          (report applied cursor.last_irreversible_block (some ancestor) source_head)
          s
  IsReconciled-IsReported cursor applied ancestor source_head s at_block none_yet r = record {
    safe = r.safe;
    finality = sym r.finality;
    bounded = omega arith;
    advanced = λ e. cc;
    complete = λ e. cc;
    reverted = λ a e.
        let same : ancestor ≡ a = ground arith in
        (
          none_yet,
          r.now_at ∙ same,
          at_block.finality,
          omega (arith, r.above, same, at_block.finality),
          omega (arith, r.below, same, at_block.height),
        );
  }

  pub Triple-apply_fork :
      (source_head total : ℕ) (cursor : ProjectionCursor) (applied : ℕ) (block : HafBlock)
      → IsAt p laws s₀ cursor applied
      → applied ≡ 0
      → block.number - 1 ≤ cursor.last_processed_block
      → Triple
          (On (Synced cursor))
          (apply_fork p source_head cursor applied block)
          (λ x. On (LoopEnds total x))
          (λ e. On Safe)
  unfolding apply_fork
  Triple-apply_fork source_head total cursor applied block at_block none_yet below =
      Triple-bind _ _ (Triple-reconcile_fork p laws s₀ cursor (block.number - 1) below) λ ancestor.
        Triple-pure _ λ w r. IsReconciled-IsReported cursor applied ancestor _ _ at_block none_yet r

  module _ (groups : Groups) (source_head total : ℕ)
      (bounded : total ≤ p.options.max_blocks_per_run) where
    Triple-apply_loop :
        (blocks : List HafBlock) (cursor : ProjectionCursor) (applied : ℕ)
        (previous : Option HafBlock)
        → IsSnapshot (cursor.last_processed_block + 1) previous blocks
        → IsAt p laws s₀ cursor applied
        → IsInStep cursor applied previous
        → applied + length blocks ≡ total
        → Triple
            (On (Synced cursor))
            (apply_loop p groups source_head cursor applied blocks)
            (λ x. On (LoopEnds total x))
            (λ e. On Safe)
    unfolding apply_loop IsInStep
    Triple-apply_loop [] cursor applied previous shot at_block step count =
        Triple-pure _ (λ w y. record { synced = y; at_block = at_block; all_applied = omega arith })
    Triple-apply_loop (block ∷ blocks) cursor applied previous shot at_block step count =
        Triple-branch _ _ _
          (λ changed.
            Triple-apply_fork source_head total cursor applied block at_block
              (fork_at_start cursor applied previous block step shot.1 changed)
              (ground (arith, shot.0)))
          (λ linked.
            Triple-bind-lift _ _
              (λ decisions _. Triple-bind _ _ (Triple-apply_one cursor block decisions) λ _.
                Triple-apply_loop blocks (moved cursor block) (applied + 1) (some block)
                  (subst (λ n. IsSnapshot (n + 1) (some block) blocks) (sym shot.0) shot.2)
                  (record {
                    height = omega (arith, shot.0, at_block.height);
                    finality = at_block.finality;
                  })
                  (inr (block, refl, refl)) (omega arith))
              (λ e _ w y. y.safe))

  pub Triple-apply_range :
      (cursor : ProjectionCursor) (source_head first target : ℕ)
      → IsAt p laws s₀ cursor 0
      → first ≡ cursor.last_processed_block + 1
      → target ≤ cursor.last_processed_block + p.options.max_blocks_per_run
      → Triple
          (On (Synced cursor))
          (apply_range p cursor source_head first target)
          (λ x. On (LoopEnds (target - cursor.last_processed_block) x))
          (λ e. On Safe)
  unfolding apply_range read_block_snapshot IsInStep
  Triple-apply_range cursor source_head first target at_block next within =
      Triple-bind _ _ (Triple-read_blocks p laws s₀ cursor (target + 1 - first) first none)
        λ before.
          Triple-bind _ _ (Triple-pre _ (Triple-ask-IsSynced p laws s₀ cursor _) (λ w h. h.synced))
            λ operations.
              Triple-bind _ _ (Triple-read_blocks p laws s₀ cursor (target + 1 - first) first none)
                λ after.
                  Triple-bind-lift _ _
                    (λ _ _.
                      Triple-bind-lift _ _
                        (λ groups _. Triple-given _ λ w h.
                          Triple-pre _
                            (Triple-apply_loop groups source_head
                              (target - cursor.last_processed_block) (omega arith) after cursor 0
                              none (subst (λ n. IsSnapshot n none after) next h.snapshot) at_block
                              (inl refl) (omega (arith, h.counted, next)))
                            (λ w' h'. h'.synced))
                        (λ e _ w h. h.synced.safe))
                    (λ e _ w h. h.synced.safe)

  pub Triple-apply_through :
      (cursor : ProjectionCursor) (source_head target : ℕ)
      → IsAt p laws s₀ cursor 0
      → target ≤ cursor.last_processed_block + p.options.max_blocks_per_run
      → Triple
          (On (Synced cursor))
          (apply_through p cursor source_head target)
          (λ x. On (LoopEnds (target - cursor.last_processed_block) x))
          (λ e. On Safe)
  unfolding apply_through
  Triple-apply_through cursor source_head target at_block within =
      Triple-branch (ltb cursor.last_processed_block target) _ _
        (λ _. Triple-apply_range cursor source_head _ target at_block refl within)
        (λ done.
          Triple-pure _
            (λ w y. record { synced = y; at_block = at_block; all_applied = ground arith }))
