-- ===== src/Projector/InMemory/Reinclusion.antt =====
-- An operation that was stored once, and comes back, in a replacement branch for one:
-- workers/haf-projector/src/testing/in-memory-store.ts.
use hive_chameleon.Prelude.{
  ℕ, zero, suc, ◌+◌, ◌<◌, ◌==◌, not, String, Bool, true, false, ◌≡◌, refl, arith, List, [], ◌∷◌,
  ◌++◌, str_eq, eq_iff, is_some, find, ltb, if◌then◌else◌, Bool-cases, inl, inr, ◌∙◌, ap,
}
use hive_chameleon.Exec.{Result, ok, err}
use hive_chameleon.Projector.Model.{
  HafBlock, ProjectionCursor, OperationDecision, StoredOperationDecision, Failure, projector_error,
  cursor_conflict, irreversible_fork,
}
use hive_chameleon.Projector.Store.{fresh_checkpoint}
use hive_chameleon.Projector.InMemory.{
  InMemoryProjectionStore, replace_where, is_stored, stored_id, cursor_of, parent_differs,
  current_checkpoint, push_operation, push_decisions, set_applied_cursor, apply_block, revert_after,
  reverted_store, finalize_through, finalized_store,
}

-- How many operations of a store have an identity.
unfoldable pub count_stored : String → List StoredOperationDecision → ℕ
count_stored id [] = zero
count_stored id (o ∷ os) =
    let rest = count_stored id os in if str_eq (stored_id o) id then suc rest else rest

-- A call of the store, returned or thrown.
pub data StoreStep : Type 0 where
  applies :
      (source : String) (block : HafBlock) (decisions : List OperationDecision)
      (observed_at : String)
      → StoreStep
  reverts : (source : String) (ancestor : ℕ) (reverted_at : String) → StoreStep
  finalizes : (source : String) (block_number : ℕ) (irreversible_at : String) → StoreStep

abbrev after_step : StoreStep → InMemoryProjectionStore → InMemoryProjectionStore
after_step (applies source block decisions at_time) s =
    (apply_block source block decisions at_time s).1
after_step (reverts source ancestor at_time) s = (revert_after source ancestor at_time s).1
after_step (finalizes source block_number at_time) s =
    (finalize_through source block_number at_time s).1

abbrev pub after_steps : List StoreStep → InMemoryProjectionStore → InMemoryProjectionStore
after_steps [] s = s
after_steps (step ∷ steps) s = after_steps steps (after_step step s)

found_count :
    (id : String) (os : List StoredOperationDecision)
    → is_some (find (λ o. str_eq (stored_id o) id) os) ≡ ltb 0 (count_stored id os)
unfolding find count_stored
found_count id [] = refl
found_count id (o ∷ os) = ground (arith, found_count id os)

is_stored_count :
    (d : OperationDecision) (s : InMemoryProjectionStore)
    → is_stored d s ≡ ltb 0 (count_stored d.evidence.source_operation_id s.operations)
unfolding is_stored
is_stored_count d s = found_count d.evidence.source_operation_id s.operations

count_replaced :
    (id : String) (os : List StoredOperationDecision) (p : StoredOperationDecision → Bool)
    (f : StoredOperationDecision → StoredOperationDecision)
    → ((o : StoredOperationDecision) → stored_id (f o) ≡ stored_id o)
    → count_stored id (replace_where os p f) ≡ count_stored id os
unfolding count_stored replace_where
count_replaced id [] p f same = refl
count_replaced id (o ∷ os) p f same = elim (Bool-cases (p o)) [
  | inl e ↦ ground (arith, e, same o, count_replaced id os p f same)
  | inr e ↦ ground (arith, e, count_replaced id os p f same)
]

count_appended :
    (id : String) (os : List StoredOperationDecision) (o : StoredOperationDecision)
    → str_eq (stored_id o) id ≡ false
    → count_stored id (os ++ o ∷ []) ≡ count_stored id os
unfolding count_stored
count_appended id [] o h = ground (arith, h)
count_appended id (p ∷ os) o h = ground (arith, count_appended id os o h)

-- An identity that is stored is not the one of a decision that is not.
other_identity :
    (id : String) (d : OperationDecision) (s : InMemoryProjectionStore)
    → 0 < count_stored id s.operations
    → is_stored d s ≡ false
    → str_eq d.evidence.source_operation_id id ≡ false
other_identity id d s held new = elim (Bool-cases (str_eq d.evidence.source_operation_id id)) [
  | inl e ↦
      absurd (
        ground (arith, held, new, is_stored_count d s, eq_iff d.evidence.source_operation_id id, e))
  | inr e ↦ e
]

pushed_count :
    (source id : String) (d : OperationDecision) (s : InMemoryProjectionStore)
    → 0 < count_stored id s.operations
    → is_stored d s ≡ false
    → count_stored id (push_operation source d s).operations ≡ count_stored id s.operations
unfolding push_operation
pushed_count source id d s held new =
    count_appended id s.operations _ (other_identity id d s held new)

-- A stored identity is never stored a second time, and no cursor moves here.
push_decisions_keep :
    (source id : String) (ds : List OperationDecision) (s : InMemoryProjectionStore)
    → 0 < count_stored id s.operations
    → (count_stored id (push_decisions source ds s).1.operations ≡ count_stored id s.operations)
      × ((push_decisions source ds s).1.cursors ≡ s.cursors)
unfolding push_decisions push_operation
push_decisions_keep source id [] s held = (refl, refl)
push_decisions_keep source id (d ∷ ds) s held = elim (Bool-cases (is_stored d s)) [
  | inl e ↦ rw e (refl, refl)
  | inr e ↦
      let same = pushed_count source id d s held e in
      let (count, cursors) =
        push_decisions_keep source id ds (push_operation source d s) (ground (arith, held, same)) in
      rw e (count ∙ same, cursors)
]

push_decisions_refused :
    (source : String) (before after : List OperationDecision) (d : OperationDecision)
    (s : InMemoryProjectionStore)
    → 0 < count_stored d.evidence.source_operation_id s.operations
    → (push_decisions source (before ++ d ∷ after) s).0 ≡ err (projector_error cursor_conflict)
unfolding push_decisions
push_decisions_refused source [] after d s held = ground (arith, held, is_stored_count d s)
push_decisions_refused source (x ∷ before) after d s held = elim (Bool-cases (is_stored x s)) [
  | inl e ↦ rw e refl
  | inr e ↦ rw e (
      push_decisions_refused source before after d (push_operation source x s)
        (ground (arith, held, pushed_count source d.evidence.source_operation_id x s held e)))
]

one_guard :
    {A : Type 0} (P : A → Type 0) (a : Bool) (stopped last : A)
    → P stopped
    → P last
    → P (if a then stopped else last)
one_guard P true stopped last p q = p
one_guard P false stopped last p q = q

three_guards :
    {A : Type 0} (P : A → Type 0) (a b c : Bool) (stopped last : A)
    → P stopped
    → P last
    → P (if a then stopped else if b then stopped else if c then stopped else last)
three_guards P true b c stopped last p q = p
three_guards P false true c stopped last p q = p
three_guards P false false true stopped last p q = p
three_guards P false false false stopped last p q = q

abbrev StoreOutcome : Type 0
StoreOutcome = Result Failure (Unit {0}) × InMemoryProjectionStore

cursor_set_count :
    (source id : String) (block : HafBlock) (cursor : ProjectionCursor) (x : StoreOutcome)
    → count_stored id (set_applied_cursor source block cursor x).1.operations
      ≡ count_stored id x.1.operations
unfolding set_applied_cursor
cursor_set_count source id block cursor (ok u, s) = refl
cursor_set_count source id block cursor (err e, s) = refl

cursor_not_set :
    (source : String) (block : HafBlock) (cursor : ProjectionCursor) (x : StoreOutcome)
    → x.0 ≡ err (projector_error cursor_conflict)
    → set_applied_cursor source block cursor x ≡ x
unfolding set_applied_cursor
cursor_not_set source block cursor (ok u, s) h = absurd (ground (arith, h))
cursor_not_set source block cursor (err e, s) h = refl

apply_block_count :
    (source id : String) (block : HafBlock) (ds : List OperationDecision) (at_time : String)
    (s : InMemoryProjectionStore)
    → 0 < count_stored id s.operations
    → count_stored id (apply_block source block ds at_time s).1.operations
      ≡ count_stored id s.operations
unfolding apply_block
apply_block_count source id block ds at_time s held =
    let cursor = cursor_of s source in
    let begun = record s {
      checkpoints = s.checkpoints ++ fresh_checkpoint source block at_time ∷ [];
    } in
    three_guards
      (λ (x : StoreOutcome). count_stored id x.1.operations ≡ count_stored id s.operations)
      (not (block.number == cursor.last_processed_block + 1))
      (parent_differs cursor.last_processed_block_id block.previous_id)
      (is_some (current_checkpoint s source block.number))
      (err (projector_error cursor_conflict), s)
      (set_applied_cursor source block cursor (push_decisions source ds begun)) refl
      (cursor_set_count source id block cursor (push_decisions source ds begun)
        ∙ (push_decisions_keep source id ds begun held).0)

step_count :
    (id : String) (step : StoreStep) (s : InMemoryProjectionStore)
    → 0 < count_stored id s.operations
    → count_stored id (after_step step s).operations ≡ count_stored id s.operations
unfolding revert_after finalize_through reverted_store finalized_store
step_count id (applies source block ds at_time) s held =
    apply_block_count source id block ds at_time s held
step_count id (reverts source ancestor at_time) s held =
    one_guard (λ (x : StoreOutcome). count_stored id x.1.operations ≡ count_stored id s.operations)
      (ltb ancestor (cursor_of s source).last_irreversible_block)
      (err (projector_error irreversible_fork), s) (ok tt, reverted_store source ancestor at_time s)
      refl (count_replaced id s.operations _ _ (λ o. refl))
step_count id (finalizes source block_number at_time) s held =
    one_guard (λ (x : StoreOutcome). count_stored id x.1.operations ≡ count_stored id s.operations)
      (ltb (cursor_of s source).last_processed_block block_number)
      (err (projector_error cursor_conflict), s)
      (ok tt, finalized_store source block_number at_time s) refl
      (count_replaced id s.operations _ _ (λ o. refl))

steps_count :
    (id : String) (steps : List StoreStep) (s : InMemoryProjectionStore)
    → 0 < count_stored id s.operations
    → count_stored id (after_steps steps s).operations ≡ count_stored id s.operations
steps_count id [] s held = refl
steps_count id (step ∷ steps) s held =
    let once = step_count id step s held in
    steps_count id steps (after_step step s) (ground (arith, held, once)) ∙ once

apply_block_refused :
    (source : String) (block : HafBlock) (before after : List OperationDecision)
    (d : OperationDecision) (at_time : String) (s : InMemoryProjectionStore)
    → 0 < count_stored d.evidence.source_operation_id s.operations
    → ((apply_block source block (before ++ d ∷ after) at_time s).0
        ≡ err (projector_error cursor_conflict))
      × ((apply_block source block (before ++ d ∷ after) at_time s).1.cursors ≡ s.cursors)
unfolding apply_block
apply_block_refused source block before after d at_time s held =
    let cursor = cursor_of s source in
    let begun = record s {
      checkpoints = s.checkpoints ++ fresh_checkpoint source block at_time ∷ [];
    } in
    let pushed = push_decisions source (before ++ d ∷ after) begun in
    let refused = push_decisions_refused source before after d begun held in
    let stays = cursor_not_set source block cursor pushed refused in
    three_guards
      (λ (x : StoreOutcome).
        (x.0 ≡ err (projector_error cursor_conflict)) × (x.1.cursors ≡ s.cursors))
      (not (block.number == cursor.last_processed_block + 1))
      (parent_differs cursor.last_processed_block_id block.previous_id)
      (is_some (current_checkpoint s source block.number))
      (err (projector_error cursor_conflict), s) (set_applied_cursor source block cursor pushed)
      (refl, refl)
      (
        ap (λ x. x.0) stays ∙ refused,
        ap (λ x. x.1.cursors) stays
            ∙ (push_decisions_keep source d.evidence.source_operation_id (before ++ d ∷ after) begun
                held).1,
      )

-- Once an operation is stored, and whatever blocks are applied, reverted and finalized since, for
-- any source: no block with a decision on it is applied again, wherever the decision stands. The
-- call throws a cursor conflict, the cursors stay, and the store holds the operation as many times
-- as before.
pub apply_block-after_steps :
    (decision : OperationDecision) (s : InMemoryProjectionStore) (steps : List StoreStep)
    (source : String) (block : HafBlock) (before after : List OperationDecision)
    (observed_at : String)
    → is_stored decision s ≡ true
    → ((apply_block source block (before ++ decision ∷ after) observed_at (after_steps steps s)).0
        ≡ err (projector_error cursor_conflict))
      × ((apply_block source block
            (before ++ decision ∷ after)
            observed_at
            (after_steps steps s)).1.cursors
          ≡ (after_steps steps s).cursors)
      × (count_stored decision.evidence.source_operation_id
            (apply_block source block
              (before ++ decision ∷ after)
              observed_at
              (after_steps steps s)).1.operations
          ≡ count_stored decision.evidence.source_operation_id s.operations)
apply_block-after_steps decision s steps source block before after observed_at h =
    let id = decision.evidence.source_operation_id in
    let held : 0 < count_stored id s.operations = ground (arith, h, is_stored_count decision s) in
    let same = steps_count id steps s held in
    let held_after : 0 < count_stored id (after_steps steps s).operations =
      ground (arith, held, same) in
    let (thrown, cursors) =
      apply_block_refused source block before after decision observed_at (after_steps steps s)
        held_after in
    (
      thrown,
      cursors,
      apply_block_count source id block (before ++ decision ∷ after) observed_at
            (after_steps steps s) held_after
          ∙ same,
    )
