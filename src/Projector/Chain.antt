-- ===== src/Projector/Chain.antt =====
-- The chain that a store shows for one source, and how the operations of a store keep it: the
-- invariant behind workers/haf-projector/src/sync/haf-projector.ts.
use hive_chameleon.Prelude.{
  ℕ, suc, String, ◌≤◌, ◌<◌, ◌≡◌, refl, sym, ◌∙◌, Bool, true, false, ◌&&◌, Option, none, some, arith,
  ltb, leb, ◌==◌, str_eq, eq_refl, is_some, if◌then◌else◌, max,
}
use hive_chameleon.Projector.Model.{HafBlock, BlockCheckpoint, included, irreversible, is_included}
use hive_chameleon.Projector.Store.{
  View, Applied, Unmoved, Reverted, Finalized, checkpoint_id?, mark_irreversible?,
  written_checkpoint,
}

-- What a checkpoint was before finalization.
mark_origin :
    (at_time : String) (b : Bool) (o : Option BlockCheckpoint) (d : BlockCheckpoint)
    → (if b then mark_irreversible? at_time o else o) ≡ some d
    → (c : BlockCheckpoint) × (o ≡ some c)
      × (d.block ≡ c.block)
      × (d.state ≡ (if b && is_included c.state then irreversible else c.state))
mark_origin at_time b none d h = absurd (ground arith)
mark_origin at_time true (some c) d h = (c, refl, ground arith, ground arith)
mark_origin at_time false (some c) d h = (c, refl, ground arith, ground arith)

mark-irreversible :
    (at_time : String) (o : Option BlockCheckpoint)
    → ((c : BlockCheckpoint) → o ≡ some c → c.state ≡ irreversible)
    → mark_irreversible? at_time o ≡ o
mark-irreversible at_time none h = refl
mark-irreversible at_time (some c) h = ground (arith, h c refl)

module _ {S : Type 0} (v : View S) (source : String) where
  abbrev pub processed : S → ℕ
  processed s = (v.cursor s source).last_processed_block

  abbrev pub settled_height : S → ℕ
  settled_height s = (v.cursor s source).last_irreversible_block

  abbrev pub at_height : S → ℕ → Option BlockCheckpoint
  at_height s n = v.checkpoint s source n

  -- The current checkpoints at the heights 1 to the cursor are there, each the child of the one
  -- below it, irreversible through the irreversible cursor and pending above it; the cursor names
  -- the last of them.
  pub record IsChained (s : S) : Type 0 where
    pub settled_le : settled_height s ≤ processed s
    pub tip :
        (v.cursor s source).last_processed_block_id ≡ checkpoint_id? (at_height s (processed s))
    pub floor : at_height s 0 ≡ none
    pub present : (n : ℕ) → 0 < n → n ≤ processed s → is_some (at_height s n) ≡ true
    pub numbered :
        (n : ℕ) (c : BlockCheckpoint) → n ≤ processed s → at_height s n ≡ some c → c.number ≡ n
    pub linked :
        (n : ℕ) (c d : BlockCheckpoint)
        → n < processed s
        → at_height s n ≡ some c
        → at_height s (suc n) ≡ some d
        → d.previous_id ≡ c.id
    pub settled :
        (n : ℕ) (c : BlockCheckpoint)
        → n ≤ settled_height s
        → at_height s n ≡ some c
        → c.state ≡ irreversible
    pub pending :
        (n : ℕ) (c : BlockCheckpoint)
        → settled_height s < n
        → n ≤ processed s
        → at_height s n ≡ some c
        → c.state ≡ included

  -- What was irreversible in `s₀` is as it was, finality went forward, and no other source moved.
  pub record Extends (s₀ s : S) : Type 0 where
    pub forward : settled_height s₀ ≤ settled_height s
    pub kept : (n : ℕ) → n ≤ settled_height s₀ → at_height s n ≡ at_height s₀ n
    pub other_cursors : (k : String) → str_eq source k ≡ false → v.cursor s k ≡ v.cursor s₀ k
    pub other_chains :
        (k : String) (n : ℕ) → str_eq source k ≡ false → v.checkpoint s k n ≡ v.checkpoint s₀ k n

  pub Extends-refl : (s : S) → Extends s s
  Extends-refl s = record {
    forward = omega arith;
    kept = λ n h. refl;
    other_cursors = λ k h. refl;
    other_chains = λ k n h. refl;
  }

  pub Extends-trans : {s₀ s₁ s₂ : S} → Extends s₀ s₁ → Extends s₁ s₂ → Extends s₀ s₂
  Extends-trans x y = record {
    forward = omega (arith, x.forward, y.forward);
    kept = λ n h. y.kept n (omega (arith, x.forward)) ∙ x.kept n h;
    other_cursors = λ k h. y.other_cursors k h ∙ x.other_cursors k h;
    other_chains = λ k n h. y.other_chains k n h ∙ x.other_chains k n h;
  }

  module _ {s s' : S} (block : HafBlock) (at_time : String)
      (a : Applied v source block at_time s s') where
    applied_cursor : v.cursor s' source ≡ record (v.cursor s source) {
      last_processed_block = block.number;
      last_processed_block_id = some block.id;
    }
    applied_cursor = ground (arith, a.cursors source, eq_refl source)

    applied_at :
        (n : ℕ)
        → at_height s' n ≡ (
            if n == block.number
            then some (written_checkpoint v source source block at_time)
            else at_height s n)
    applied_at n = ground (arith, a.chain source n, eq_refl source)

    pub Applied-IsChained : IsChained s → IsChained s'
    Applied-IsChained c = record {
      settled_le = ground (arith, applied_cursor, a.follows, c.settled_le);
      tip = ground (arith, applied_cursor, applied_at (processed s'), applied_at block.number);
      floor = ground (arith, applied_at 0, a.follows, c.floor);
      present = λ n lo hi. ground (arith, applied_cursor, applied_at n, a.follows, c.present n);
      numbered =
          λ n d hi e. ground (arith, applied_cursor, applied_at n, a.follows, c.numbered n d);
      linked = λ n d e hi p q. ground (
        arith,
        applied_cursor,
        applied_at n,
        applied_at (suc n),
        a.follows,
        a.linked,
        c.tip,
        c.linked n d e,
      );
      settled = λ n d hi e.
          ground (arith, applied_cursor, applied_at n, a.follows, c.settled n d, c.settled_le);
      pending =
          λ n d lo hi e. ground (arith, applied_cursor, applied_at n, a.follows, c.pending n d);
    }

    pub Applied-Extends : {s₀ : S} → IsChained s → Extends s₀ s → Extends s₀ s'
    Applied-Extends {s₀} c x = record {
      forward = ground (arith, applied_cursor, x.forward);
      kept = λ n h. ground (arith, applied_at n, a.follows, x.kept n, x.forward, c.settled_le);
      other_cursors = λ k h. ground (arith, a.cursors k, x.other_cursors k);
      other_chains = λ k n h. ground (arith, a.chain k n, x.other_chains k n);
    }

  module _ {s s' : S} (u : Unmoved v source s s') where
    pub Unmoved-IsChained : IsChained s → IsChained s'
    Unmoved-IsChained c = record {
      settled_le = ground (arith, u.cursors source, c.settled_le);
      tip = ground (arith, u.cursors source, u.covered (processed s), c.tip);
      floor = ground (arith, u.covered 0, c.floor);
      present = λ n lo hi. ground (arith, u.cursors source, u.covered n, c.present n);
      numbered = λ n d hi e. ground (arith, u.cursors source, u.covered n, c.numbered n d);
      linked = λ n d e hi p q.
          ground (arith, u.cursors source, u.covered n, u.covered (suc n), c.linked n d e);
      settled =
          λ n d hi e. ground (arith, u.cursors source, u.covered n, c.settled n d, c.settled_le);
      pending = λ n d lo hi e. ground (arith, u.cursors source, u.covered n, c.pending n d);
    }

    pub Unmoved-Extends : {s₀ : S} → IsChained s → Extends s₀ s → Extends s₀ s'
    Unmoved-Extends {s₀} c x = record {
      forward = ground (arith, u.cursors source, x.forward);
      kept = λ n h. ground (arith, u.covered n, x.kept n, x.forward, c.settled_le);
      other_cursors = λ k h. u.cursors k ∙ x.other_cursors k h;
      other_chains = λ k n h. u.others k n h ∙ x.other_chains k n h;
    }

  module _ {s s' : S} (ancestor : ℕ) (r : Reverted v source ancestor s s') where
    reverted_cursor : v.cursor s' source ≡ record (v.cursor s source) {
      last_processed_block = ancestor;
      last_processed_block_id = checkpoint_id? (at_height s ancestor);
    }
    reverted_cursor = ground (arith, r.cursors source, eq_refl source)

    reverted_at : (n : ℕ) → at_height s' n ≡ (if ltb ancestor n then none else at_height s n)
    reverted_at n = ground (arith, r.chain source n, eq_refl source)

    pub Reverted-IsChained : ancestor ≤ processed s → IsChained s → IsChained s'
    Reverted-IsChained below c = record {
      settled_le = ground (arith, reverted_cursor, r.allowed);
      tip = ground (arith, reverted_cursor, reverted_at ancestor);
      floor = ground (arith, reverted_at 0, c.floor);
      present = λ n lo hi. ground (arith, reverted_cursor, reverted_at n, c.present n);
      numbered = λ n d hi e. ground (arith, reverted_cursor, reverted_at n, c.numbered n d);
      linked = λ n d e hi p q.
          ground (arith, reverted_cursor, reverted_at n, reverted_at (suc n), c.linked n d e);
      settled = λ n d hi e. ground (arith, reverted_cursor, reverted_at n, c.settled n d);
      pending = λ n d lo hi e. ground (arith, reverted_cursor, reverted_at n, c.pending n d);
    }

    pub Reverted-Extends : {s₀ : S} → Extends s₀ s → Extends s₀ s'
    Reverted-Extends {s₀} x = record {
      forward = ground (arith, reverted_cursor, x.forward);
      kept = λ n h. ground (arith, reverted_at n, x.kept n, x.forward, r.allowed);
      other_cursors = λ k h. ground (arith, r.cursors k, x.other_cursors k);
      other_chains = λ k n h. ground (arith, r.chain k n, x.other_chains k n);
    }

  module _ {s s' : S} (through : ℕ) (at_time : String)
      (f : Finalized v source through at_time s s') where
    finalized_cursor :
        v.cursor s' source
        ≡ record (v.cursor s source) { last_irreversible_block = max (settled_height s) through }
    finalized_cursor = ground (arith, f.cursors source, eq_refl source)

    finalized_at :
        (n : ℕ)
        → at_height s' n ≡ (
            if leb n through
            then mark_irreversible? (v.written at_time) (at_height s n)
            else at_height s n)
    finalized_at n = ground (arith, f.chain source n, eq_refl source)

    finalized_origin :
        (n : ℕ) (d : BlockCheckpoint)
        → at_height s' n ≡ some d
        → (c : BlockCheckpoint) × (at_height s n ≡ some c)
          × (d.block ≡ c.block)
          × (d.state ≡ (if leb n through && is_included c.state then irreversible else c.state))
    finalized_origin n d e =
        mark_origin (v.written at_time) (leb n through) (at_height s n) d (sym (finalized_at n) ∙ e)

    pub Finalized-IsChained : IsChained s → IsChained s'
    Finalized-IsChained c = record {
      settled_le = ground (arith, finalized_cursor, f.processed, c.settled_le);
      tip = ground (arith, finalized_cursor, finalized_at (processed s), c.tip);
      floor = ground (arith, finalized_at 0, c.floor);
      present = λ n lo hi. ground (arith, finalized_cursor, finalized_at n, c.present n);
      numbered = λ n d hi e.
          let (b, eb, same, _) = finalized_origin n d e in
          ground (arith, finalized_cursor, same, c.numbered n b, eb);
      linked = λ n d e hi p q.
          let (b, eb, same, _) = finalized_origin n d p in
          let (b', eb', same', _) = finalized_origin (suc n) e q in
          ground (arith, finalized_cursor, same, same', c.linked n b b', eb, eb');
      settled = λ n d hi e.
          let (b, eb, _, state) = finalized_origin n d e in
          ground (
            arith,
            finalized_cursor,
            f.processed,
            c.settled_le,
            state,
            eb,
            c.settled n b,
            c.pending n b,
          );
      pending = λ n d lo hi e.
          let (b, eb, _, state) = finalized_origin n d e in
          ground (arith, finalized_cursor, state, eb, c.pending n b);
    }

    pub Finalized-Extends : {s₀ : S} → IsChained s → Extends s₀ s → Extends s₀ s'
    Finalized-Extends {s₀} c x = record {
      forward = ground (arith, finalized_cursor, x.forward);
      kept = λ n h. ground (
        arith,
        finalized_at n,
        x.kept n,
        mark-irreversible at_time (at_height s n)
            (λ d e. c.settled n d (omega (arith, x.forward)) e),
      );
      other_cursors = λ k h. ground (arith, f.cursors k, x.other_cursors k);
      other_chains = λ k n h. ground (arith, f.chain k n, x.other_chains k n);
    }
