-- ===== src/Projector/Sync/Finality.antt =====
-- The end of a cycle: the finality that it asserts, and the report.
use hive_chameleon.Prelude.{ℕ, ◌+◌, ◌≡◌, sym, subst, eq_refl, arith, ltb, min, max, ◌-◌, ◌∙◌}
use hive_chameleon.Exec.Triple.{
  Post-mono, Triple, Triple-pure, Triple-branch, Triple-unless, Triple-given, Triple-pre,
  Triple-bind,
}
use hive_chameleon.Projector.Model.{HafIrreversibleBlock, ProjectionCursor}
use hive_chameleon.Projector.Store.{IsProjectionStore}
use hive_chameleon.Projector.Chain.{
  processed, settled_height, Finalized-IsChained, Finalized-Extends,
}
use hive_chameleon.Projector.Sync.{LoopExit, finished, forked}
use hive_chameleon.Projector.Sync.Run.{
  ForkAwareHafProjector, name, finalizable_of, assert_finality_agreement, finalize_to,
  finalize_cycle, end_cycle,
}
use hive_chameleon.Projector.Sync.Safety.{
  On, IsSafe, IsSynced, Triple-call, Triple-ask-IsSynced, Triple-stamp,
  Triple-get_current_checkpoint,
}
use hive_chameleon.Projector.Sync.Steps.{IsAt, IsReported, start}
use hive_chameleon.Projector.Sync.Loop.{LoopEnds}

module _ {S : Type 0} (p : ForkAwareHafProjector S) (laws : IsProjectionStore p.store)
    (s₀ : S) where
  abbrev Safe : S → Type 0
  Safe = IsSafe p laws s₀

  abbrev Synced : ProjectionCursor → S → Type 0
  Synced = IsSynced p laws s₀

  pub Triple-assert_finality_agreement :
      (cursor : ProjectionCursor) (irreversible : HafIrreversibleBlock)
      (finalizable source_head : ℕ)
      → Triple
          (On (Synced cursor))
          (assert_finality_agreement p irreversible finalizable source_head)
          (λ _. On (Synced cursor))
          (λ e. On Safe)
  unfolding assert_finality_agreement
  Triple-assert_finality_agreement cursor irreversible finalizable source_head =
      Triple-unless _ _ _ (λ _ w y. y.safe)
        λ _. Triple-bind _ _ (Triple-ask-IsSynced p laws s₀ cursor _) λ hafah.
          Triple-unless _ _ _ (λ _ w y. y.safe)
            λ _.
              Triple-bind _ _ (Triple-get_current_checkpoint p laws s₀ cursor finalizable) λ stored.
                Triple-bind _ _
                  (Triple-branch {Q = λ _. On (Synced cursor)} _ _ _
                    (λ _. Triple-pure hafah (λ w y. y))
                    (λ _. Triple-ask-IsSynced p laws s₀ cursor _))
                  λ current. Triple-unless _ _ _ (λ _ w y. y.safe) (λ _. Triple-pure tt (λ w y. y))

  pub record HasFinalized (cursor : ProjectionCursor) (through : ℕ) (s : S) : Type 0 where
    pub safe : Safe s
    pub height : processed laws.view (name p) s ≡ cursor.last_processed_block
    pub finality : settled_height laws.view (name p) s ≡ max cursor.last_irreversible_block through

  pub Triple-finalize_to :
      (cursor : ProjectionCursor) (irreversible : HafIrreversibleBlock) (source_head through : ℕ)
      → Triple
          (On (Synced cursor))
          (finalize_to p irreversible source_head through)
          (λ _. On (HasFinalized cursor through))
          (λ e. On Safe)
  unfolding finalize_to
  Triple-finalize_to cursor irreversible source_head through =
      Triple-bind _ _ (Triple-assert_finality_agreement cursor irreversible through source_head)
        λ _. Triple-bind _ _ (Triple-stamp p laws s₀ (Synced cursor)) λ at_time.
          Triple-call (Synced cursor) (λ _. HasFinalized cursor through) Safe _
            λ s y.
              Post-mono _
                (λ a s' f. record {
                  safe = record {
                    chained =
                        Finalized-IsChained laws.view (name p) through at_time f y.safe.chained;
                    extends =
                        Finalized-Extends laws.view (name p) through at_time f y.safe.chained
                          y.safe.extends;
                  };
                  height = ground (arith, f.cursors (name p), eq_refl (name p), y.same);
                  finality = ground (arith, f.cursors (name p), eq_refl (name p), y.same);
                })
                (λ e s' h. subst Safe (sym h) y.safe)
                (laws.finalize_through_lem (name p) through at_time s)

  pub Triple-finalize_cycle :
      (irreversible : HafIrreversibleBlock) (source_head : ℕ) (cursor : ProjectionCursor)
      (applied : ℕ)
      → IsAt p laws s₀ cursor applied
      → applied
        ≡ min source_head ((start p laws s₀).last_processed_block + p.options.max_blocks_per_run)
          - (start p laws s₀).last_processed_block
      → Triple
          (On (Synced cursor))
          (finalize_cycle p irreversible source_head cursor applied)
          (λ r. On (IsReported p laws s₀ r))
          (λ e. On Safe)
  unfolding finalize_cycle
  Triple-finalize_cycle irreversible source_head cursor applied at_block count =
      Triple-branch (ltb cursor.last_irreversible_block (finalizable_of irreversible cursor)) _ _
        (λ _. Triple-bind _ _ (Triple-finalize_to cursor irreversible source_head _) λ _.
          Triple-pure _ λ w h. record {
            safe = h.safe;
            finality = sym h.finality;
            bounded = omega arith;
            advanced = λ _. h.height ∙ at_block.height;
            complete = λ _. omega (arith, h.height, at_block.height);
            reverted = λ a e. cc;
          })
        (λ nothing. Triple-pure _ λ w y. record {
          safe = y.safe;
          finality = ground (arith, y.same);
          bounded = omega arith;
          advanced = λ _. ground (arith, y.same, at_block.height);
          complete = λ _. ground (arith, y.same, at_block.height);
          reverted = λ a e. cc;
        })

  pub Triple-end_cycle :
      (irreversible : HafIrreversibleBlock) (source_head : ℕ) (x : LoopExit)
      → Triple
          (On (
            LoopEnds p laws s₀
              (min source_head
                  ((start p laws s₀).last_processed_block + p.options.max_blocks_per_run)
                - (start p laws s₀).last_processed_block)
              x))
          (end_cycle p irreversible source_head x)
          (λ r. On (IsReported p laws s₀ r))
          (λ e. On Safe)
  unfolding end_cycle
  Triple-end_cycle irreversible source_head (forked r) = Triple-pure r (λ w h. h)
  Triple-end_cycle irreversible source_head (finished cursor applied) = Triple-given _ λ w h.
      Triple-pre _
        (Triple-finalize_cycle irreversible source_head cursor applied h.at_block h.all_applied)
        (λ w' h'. h'.synced)
