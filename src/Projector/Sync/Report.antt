-- ===== src/Projector/Sync/Report.antt =====
-- A cycle as a whole, `runOnce`: what it reports is what it did to the store.
use hive_chameleon.Prelude.{ℕ, ◌≡◌, refl, sym, ap, subst, Option, none, some, arith, ltb, ◌∙◌}
use hive_chameleon.Exec.Triple.{
  Post, Post, Post-mono, Triple, Triple-pure, Triple-branch, Triple-given, Triple-pre, Triple-bind,
}
use hive_chameleon.Exec.{Result, ok, err}
use hive_chameleon.Projector.Model.{Failure, HafIrreversibleBlock, ProjectionCursor}
use hive_chameleon.Projector.Store.{IsProjectionStore}
use hive_chameleon.Projector.Chain.{IsChained, Extends, Extends-refl}
use hive_chameleon.Projector.Sync.{World, HafProjectorRunResult}
use hive_chameleon.Projector.Sync.Run.{
  ForkAwareHafProjector, name, target_of, verify_current_tip, continue_cycle, run_from, run_once,
}
use hive_chameleon.Projector.Sync.Safety.{On, IsSafe, IsSynced, Triple-call, Triple-ask-IsSynced}
use hive_chameleon.Projector.Sync.Steps.{IsAt, IsReported, TipChecked, Triple-verify_against, start}
use hive_chameleon.Projector.Sync.Loop.{IsReconciled-IsReported, LoopEnds, Triple-apply_through}
use hive_chameleon.Projector.Sync.Finality.{Triple-end_cycle}

module _ {S : Type 0} (p : ForkAwareHafProjector S) (laws : IsProjectionStore p.store)
    (s₀ : S) where
  abbrev Safe : S → Type 0
  Safe = IsSafe p laws s₀

  abbrev Synced : ProjectionCursor → S → Type 0
  Synced = IsSynced p laws s₀

  pub Triple-continue_cycle :
      (cursor : ProjectionCursor) (source_head : ℕ) (irreversible : HafIrreversibleBlock)
      (tip : Option ℕ)
      → IsAt p laws s₀ cursor 0
      → Triple
          (On (TipChecked p laws s₀ cursor tip))
          (continue_cycle p cursor source_head irreversible tip)
          (λ r. On (IsReported p laws s₀ r))
          (λ e. On Safe)
  unfolding continue_cycle
  Triple-continue_cycle cursor source_head irreversible (some ancestor) at_block =
      Triple-pure _
        (λ w r. IsReconciled-IsReported p laws s₀ cursor 0 ancestor source_head _ at_block refl r)
  Triple-continue_cycle cursor source_head irreversible none at_block =
      Triple-bind _ _
        (Triple-apply_through p laws s₀ cursor source_head
          (target_of cursor source_head p.options.max_blocks_per_run) at_block (omega arith))
        λ x.
          Triple-pre _ (Triple-end_cycle p laws s₀ irreversible source_head x)
            λ w h. subst (λ n. LoopEnds p laws s₀ n x w.store) (omega (arith, at_block.height)) h

  pub record HasStarted (cursor : ProjectionCursor) (s : S) : Type 0 where
    pub at_start : s ≡ s₀
    pub same : cursor ≡ (start p laws s₀)

  pub Triple-from_cursor :
      (cursor : ProjectionCursor)
      → cursor ≡ (start p laws s₀)
      → Triple
          (On (Synced cursor))
          (run_from p cursor)
          (λ r. On (IsReported p laws s₀ r))
          (λ e. On Safe)
  unfolding run_from verify_current_tip
  Triple-from_cursor cursor e =
      Triple-bind _ _ (Triple-ask-IsSynced p laws s₀ cursor _) λ source_head.
        Triple-bind _ _ (Triple-ask-IsSynced p laws s₀ cursor _) λ irreversible.
          Triple-branch (ltb source_head cursor.last_processed_block) _ _
            (λ behind. Triple-pure _ λ w y. record {
              safe = y.safe;
              finality = ground (arith, y.same);
              bounded = omega arith;
              advanced = λ _. ground (arith, y.same, e);
              complete = λ _. ground (arith, y.same, e);
              reverted = λ a h. cc;
            })
            (λ _.
              Triple-bind _ _
                (Triple-verify_against p laws s₀ cursor cursor.last_processed_block_id)
                λ tip.
                  Triple-continue_cycle cursor source_head irreversible tip
                    (record { height = ground (arith, e); finality = ground (arith, e) }))

  pub Triple-run_once :
      IsChained laws.view (name p) s₀
      → Triple (On (λ s. s ≡ s₀)) (run_once p) (λ r. On (IsReported p laws s₀ r)) (λ e. On Safe)
  unfolding run_once
  Triple-run_once chained =
      Triple-bind _ _ (Triple-call (λ s. s ≡ s₀) HasStarted Safe _ get_cursor_starts) λ cursor.
        Triple-given _ λ w h. Triple-pre _ (Triple-from_cursor cursor h.same) (λ w' h'.
          subst (Synced cursor) (sym h'.at_start) (record { safe = start_safe; same = h'.same }))
    where
      start_safe : Safe s₀
      start_safe = record { chained = chained; extends = Extends-refl laws.view (name p) s₀ }

      get_cursor_starts :
          (s : S) → s ≡ s₀ → Post HasStarted (λ e. Safe) (p.store.get_cursor (name p) s)
      get_cursor_starts s e =
          Post-mono _
            (λ c s' h. record {
              at_start = h.0 ∙ e;
              same = h.1 ∙ ap (λ t. laws.view.cursor t (name p)) e;
            })
            (λ e' s' h. subst Safe (sym (h ∙ e)) start_safe) (laws.get_cursor_lem (name p) s)

module _ {S : Type 0} (p : ForkAwareHafProjector S) (laws : IsProjectionStore p.store) (w : World S)
    (chained : IsChained laws.view (name p) w.store) where
  run_once-Post :
      Post (λ r. On (IsReported p laws w.store r)) (λ e. On (IsSafe p laws w.store)) (run_once p w)
  run_once-Post = (Triple-run_once p laws w.store chained).at w refl

  -- Whatever the source answers, and whether the cycle returns or throws, `runOnce` keeps the chain
  -- of current checkpoints well formed; what was irreversible stays as it is, the irreversible
  -- cursor does not fall, and the cursors and checkpoints of every other source are untouched.
  pub run_once-IsChained :
      IsChained laws.view (name p) (run_once p w).1.store
      × Extends laws.view (name p) w.store (run_once p w).1.store
  unfolding Post
  run_once-IsChained = safe_parts (run_once p w) run_once-Post
    where
      safe_parts :
          (x : Result Failure HafProjectorRunResult × World S)
          → Post (λ r. On (IsReported p laws w.store r)) (λ e. On (IsSafe p laws w.store)) x
          → IsChained laws.view (name p) x.1.store × Extends laws.view (name p) w.store x.1.store
      safe_parts (ok r, w') h = (h.safe.chained, h.safe.extends)
      safe_parts (err e, w') h = (h.chained, h.extends)

  -- A cycle that returns reports what it did: `finalizedThrough` is the irreversible cursor of the
  -- store; without a fork the cursor is at the target, the smaller of the head and the old cursor
  -- plus the block limit (or where it was, if that is higher), and it advanced by `appliedBlocks`;
  -- with `revertedTo` no block was applied, the cursor is at that ancestor, which lies between the
  -- old irreversible cursor and the old cursor, and finality did not move.
  pub run_once_report :
      (r : HafProjectorRunResult) (w' : World S)
      → run_once p w ≡ (ok r, w')
      → IsReported p laws w.store r w'.store
  unfolding Post
  run_once_report r w' e =
      subst (Post (λ r. On (IsReported p laws w.store r)) (λ e. On (IsSafe p laws w.store))) e
        run_once-Post
