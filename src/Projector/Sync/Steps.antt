-- ===== src/Projector/Sync/Steps.antt =====
-- The parts of a cycle that read: the snapshot, the check of the tip and the reconciliation of a
-- fork; and what the report of a cycle says of the store.
use hive_chameleon.Prelude.{
  ℕ, zero, suc, String, ◌+◌, ◌≤◌, ◌≡◌, refl, true, Option, none, some, List, [], ◌∷◌, arith, length,
  min, max,
}
use hive_chameleon.Exec.Triple.{Triple, Triple-pure, Triple-branch, Triple-unless, Triple-bind}
use hive_chameleon.Projector.Model.{HafBlock, ProjectionCursor}
use hive_chameleon.Projector.Store.{IsProjectionStore}
use hive_chameleon.Projector.Chain.{processed, settled_height}
use hive_chameleon.Projector.Sync.{HafProjectorRunResult, follows_previous}
use hive_chameleon.Projector.Sync.Run.{
  ForkAwareHafProjector, name, read_blocks, reconcile_fork, verify_against,
}
use hive_chameleon.Projector.Sync.Safety.{
  On, IsSafe, IsSynced, IsReconciled, Triple-ask-IsSynced, Triple-reconcile_from,
}

-- Consecutive blocks from height `n`, each the child of the one before it.
abbrev pub IsSnapshot : ℕ → Option HafBlock → List HafBlock → Type 0
IsSnapshot n previous [] = Unit {0}
IsSnapshot n previous (block ∷ blocks) =
    (block.number ≡ n)
    × (follows_previous previous block ≡ true)
    × IsSnapshot (n + 1) (some block) blocks

module _ {S : Type 0} (p : ForkAwareHafProjector S) (laws : IsProjectionStore p.store)
    (s₀ : S) where
  abbrev Safe : S → Type 0
  Safe = IsSafe p laws s₀

  abbrev Synced : ProjectionCursor → S → Type 0
  Synced = IsSynced p laws s₀

  abbrev pub start : ProjectionCursor
  start = laws.view.cursor s₀ (name p)

  pub record HasRead (cursor : ProjectionCursor) (n : ℕ) (previous : Option HafBlock) (k : ℕ)
      (blocks : List HafBlock) (s : S) : Type 0 where
    pub synced : Synced cursor s
    pub snapshot : IsSnapshot n previous blocks
    pub counted : length blocks ≡ k

  pub Triple-read_blocks :
      (cursor : ProjectionCursor) (k n : ℕ) (previous : Option HafBlock)
      → Triple
          (On (Synced cursor))
          (read_blocks p k n previous)
          (λ blocks. On (HasRead cursor n previous k blocks))
          (λ e. On Safe)
  unfolding read_blocks
  Triple-read_blocks cursor zero n previous =
      Triple-pure [] (λ w y. record { synced = y; snapshot = tt; counted = refl })
  Triple-read_blocks cursor (suc k) n previous =
      Triple-bind _ _ (Triple-ask-IsSynced p laws s₀ cursor _) λ block.
        Triple-unless _ _ _ (λ _ w y. y.safe)
          λ passed. Triple-bind _ _ (Triple-read_blocks cursor k (n + 1) (some block)) λ rest.
            Triple-pure (block ∷ rest) λ w h. record {
              synced = h.synced;
              snapshot = (ground arith, ground arith, h.snapshot);
              counted = ground (arith, h.counted);
            }

  -- What a report says of the store.
  pub record IsReported (r : HafProjectorRunResult) (s : S) : Type 0 where
    pub safe : IsSafe p laws s₀ s
    pub finality : r.finalized_through ≡ settled_height laws.view (name p) s
    pub bounded : r.applied_blocks ≤ p.options.max_blocks_per_run
    pub advanced :
        r.reverted_to ≡ none
        → processed laws.view (name p) s ≡ start.last_processed_block + r.applied_blocks
    -- Without a fork the cycle reaches its target.
    pub complete :
        r.reverted_to ≡ none
        → processed laws.view (name p) s
          ≡ max start.last_processed_block
              (min r.source_head (start.last_processed_block + p.options.max_blocks_per_run))
    pub reverted :
        (ancestor : ℕ)
        → r.reverted_to ≡ some ancestor
        → (r.applied_blocks ≡ 0)
          × (processed laws.view (name p) s ≡ ancestor)
          × (r.finalized_through ≡ start.last_irreversible_block)
          × (start.last_irreversible_block ≤ ancestor)
          × (ancestor ≤ start.last_processed_block)

  pub Triple-reconcile_fork :
      (cursor : ProjectionCursor) (n : ℕ)
      → n ≤ cursor.last_processed_block
      → Triple
          (On (Synced cursor))
          (reconcile_fork p cursor n)
          (λ a. On (IsReconciled p laws s₀ cursor a))
          (λ e. On Safe)
  unfolding reconcile_fork
  Triple-reconcile_fork cursor n below = Triple-reconcile_from p laws s₀ cursor _ n below

  -- After the check of the tip: nothing happened, or a fork was reconciled.
  abbrev pub TipChecked : ProjectionCursor → Option ℕ → S → Type 0
  TipChecked cursor none s = Synced cursor s
  TipChecked cursor (some ancestor) s = IsReconciled p laws s₀ cursor ancestor s

  pub Triple-verify_against :
      (cursor : ProjectionCursor) (id : Option String)
      → Triple
          (On (Synced cursor))
          (verify_against p cursor id)
          (λ r. On (TipChecked cursor r))
          (λ e. On Safe)
  unfolding verify_against
  Triple-verify_against cursor none = Triple-pure none (λ w y. y)
  Triple-verify_against cursor (some id) =
      Triple-branch _ _ _ (λ _. Triple-pure none (λ w y. y))
        λ _. Triple-bind _ _ (Triple-ask-IsSynced p laws s₀ cursor _) λ current.
          Triple-branch _ _ _ (λ _. Triple-pure none (λ w y. y))
            λ _.
              Triple-bind _ _
                (Triple-reconcile_fork cursor cursor.last_processed_block (omega arith))
                λ ancestor. Triple-pure (some ancestor) (λ w h. h)

  -- The cursor of the loop after `applied` blocks.
  pub record IsAt (cursor : ProjectionCursor) (applied : ℕ) : Type 0 where
    pub height : cursor.last_processed_block ≡ start.last_processed_block + applied
    pub finality : cursor.last_irreversible_block ≡ start.last_irreversible_block
