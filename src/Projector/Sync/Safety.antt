-- ===== src/Projector/Sync/Safety.antt =====
-- What a cycle of the projector does to the store, whatever the source answers: the invariant of
-- Projector/Chain.antt through every method of Projector/Sync/Run.antt.
use hive_chameleon.Prelude.{
  ℕ, zero, suc, String, ◌+◌, ◌-◌, ◌≤◌, ◌≡◌, sym, subst, eq_refl, arith, ◌==◌,
}
use hive_chameleon.Exec.{Result, ok, err, Exec}
use hive_chameleon.Exec.Triple.{
  Post, Post-mono, Triple, Triple-pure, Triple-throw, Triple-reads, Triple-branch, Triple-unless,
  Triple-post, Triple-bind,
}
use hive_chameleon.Projector.Model.{ProjectionCursor, Failure}
use hive_chameleon.Projector.Store.{View, IsProjectionStore, Reverted}
use hive_chameleon.Projector.Chain.{
  IsChained, Extends, processed, settled_height, Reverted-IsChained, Reverted-Extends,
}
use hive_chameleon.Projector.Sync.{World}
use hive_chameleon.Projector.Sync.Run.{
  ForkAwareHafProjector, ask, call, name, stamp, revert_to, reconcile_from,
}

-- A property of the store, read in a world.
abbrev pub On : {S : Type 0} → (S → Type 0) → World S → Type 0
On P w = P w.store

module _ {S A : Type 0} (P : S → Type 0) where
  pub Triple-ask :
      (request : ℕ → Result Failure A) → Triple (On P) (ask request) (λ a. On P) (λ e. On P)
  unfolding ask Post
  Triple-ask request = record { at = λ w h. kept (request w.tick) w h }
    where
      kept :
          (r : Result Failure A) (w : World S)
          → P w.store
          → Post (λ a. On P) (λ e. On P) (r, record w { tick = w.tick + 1 })
      kept (ok a) w h = h
      kept (err e) w h = h

module _ {S A : Type 0} (P : S → Type 0) (Q : A → S → Type 0) (R : S → Type 0) where
  pub Triple-call :
      (m : Exec S Failure A)
      → ((s : S) → P s → Post Q (λ e. R) (m s))
      → Triple (On P) (call m) (λ a. On (Q a)) (λ e. On R)
  unfolding call Post
  Triple-call m h = record { at = λ w p. moved (m w.store) w (h w.store p) }
    where
      moved :
          (x : Result Failure A × S) (w : World S)
          → Post Q (λ e. R) x
          → Post (λ a. On (Q a)) (λ e. On R) (x.0, record w { store = x.1 })
      moved (ok a, s) w q = q
      moved (err e, s) w q = q

module _ {S : Type 0} (p : ForkAwareHafProjector S) (laws : IsProjectionStore p.store)
    (s₀ : S) where
  abbrev pub v : View S
  v = laws.view

  abbrev pub src : String
  src = name p

  -- The invariant of a cycle that began in `s₀`.
  pub record IsSafe (s : S) : Type 0 where
    pub chained : IsChained v src s
    pub extends : Extends v src s₀ s

  -- The projector's copy of the cursor is the store's.
  pub record IsSynced (cursor : ProjectionCursor) (s : S) : Type 0 where
    pub safe : IsSafe s
    pub same : cursor ≡ v.cursor s src

  -- The store after a fork was reconciled at `ancestor`.
  pub record IsReconciled (cursor : ProjectionCursor) (ancestor : ℕ) (s : S) : Type 0 where
    pub safe : IsSafe s
    pub below : ancestor ≤ cursor.last_processed_block
    pub above : cursor.last_irreversible_block ≤ ancestor
    pub now_at : processed v src s ≡ ancestor
    pub finality : settled_height v src s ≡ cursor.last_irreversible_block

  Reverted-IsReconciled :
      (cursor : ProjectionCursor) (ancestor : ℕ) {s s' : S}
      → ancestor ≤ cursor.last_processed_block
      → IsSynced cursor s
      → Reverted v src ancestor s s'
      → IsReconciled cursor ancestor s'
  Reverted-IsReconciled cursor ancestor below y r = record {
    safe = record {
      chained = Reverted-IsChained v src ancestor r (ground (arith, y.same, below)) y.safe.chained;
      extends = Reverted-Extends v src ancestor r y.safe.extends;
    };
    below = below;
    above = ground (arith, y.same, r.allowed);
    now_at = ground (arith, r.cursors src, eq_refl src);
    finality = ground (arith, r.cursors src, eq_refl src, y.same);
  }

  pub Triple-stamp : (P : S → Type 0) → Triple (On P) (stamp p) (λ a. On P) (λ e. On IsSafe)
  unfolding stamp
  Triple-stamp P = Triple-reads _ (λ w h. h)

  -- A call or a request that leaves the store alone, where the cursor is in step.
  pub Triple-ask-IsSynced :
      {A : Type 0} (cursor : ProjectionCursor) (request : ℕ → Result Failure A)
      → Triple (On (IsSynced cursor)) (ask request) (λ a. On (IsSynced cursor)) (λ e. On IsSafe)
  Triple-ask-IsSynced cursor request =
      Triple-post _ (Triple-ask (IsSynced cursor) request) (λ a w y. y) (λ e w y. y.safe)

  pub Triple-get_current_checkpoint :
      (cursor : ProjectionCursor) (n : ℕ)
      → Triple
          (On (IsSynced cursor))
          (call (p.store.get_current_checkpoint (name p) n))
          (λ a. On (IsSynced cursor))
          (λ e. On IsSafe)
  Triple-get_current_checkpoint cursor n =
      Triple-call (IsSynced cursor) (λ a. IsSynced cursor) IsSafe _
        λ s y.
          Post-mono _ (λ a s' h. subst (IsSynced cursor) (sym h.0) y)
            (λ e s' h. subst IsSafe (sym h) y.safe) (laws.get_current_checkpoint_lem src n s)

  pub Triple-revert_to :
      (cursor : ProjectionCursor) (ancestor : ℕ)
      → ancestor ≤ cursor.last_processed_block
      → Triple
          (On (IsSynced cursor))
          (revert_to p ancestor)
          (λ a. On (IsReconciled cursor a))
          (λ e. On IsSafe)
  unfolding revert_to
  Triple-revert_to cursor ancestor below =
      Triple-bind _ _ (Triple-stamp (IsSynced cursor)) λ at_time.
        Triple-bind _ _
          (Triple-call (IsSynced cursor) (λ _. IsReconciled cursor ancestor) IsSafe _
            λ s y.
              Post-mono _ (λ a s' r. Reverted-IsReconciled cursor ancestor below y r)
                (λ e s' h. subst IsSafe (sym h) y.safe)
                (laws.revert_after_lem src ancestor at_time s))
          λ _. Triple-pure ancestor (λ w h. h)

  pub Triple-reconcile_from :
      (cursor : ProjectionCursor) (rounds n : ℕ)
      → n ≤ cursor.last_processed_block
      → Triple
          (On (IsSynced cursor))
          (reconcile_from p cursor rounds n)
          (λ a. On (IsReconciled cursor a))
          (λ e. On IsSafe)
  unfolding reconcile_from
  Triple-reconcile_from cursor zero n below = Triple-throw _ (λ w y. y.safe)
  Triple-reconcile_from cursor (suc rounds) n below =
      Triple-branch (n == 0) _ _
        (λ at_zero.
          Triple-unless _ _ _ (λ _ w y. y.safe) (λ _. Triple-revert_to cursor 0 (omega arith)))
        (λ above_zero. Triple-bind _ _ (Triple-get_current_checkpoint cursor n) λ stored.
          Triple-bind _ _ (Triple-ask-IsSynced cursor _) λ current.
            Triple-branch _ _ _
              (λ _. Triple-unless _ _ _ (λ _ w y. y.safe) (λ _. Triple-revert_to cursor n below))
              (λ _.
                Triple-unless _ _ _ (λ _ w y. y.safe)
                  (λ _. Triple-reconcile_from cursor rounds (n - 1) (omega arith))))
