-- ===== src/Projector/InMemory/Laws.antt =====
-- The in-memory store keeps the promises of `ProjectionStore`.
use hive_chameleon.Prelude.{
  ℕ, String, ◌≤◌, ◌≡◌, refl, ◌∙◌, Bool, true, false, ◌&&◌, not, Option, none, some, List, [], ◌∷◌,
  ◌++◌, arith, ltb, leb, ◌==◌, str_eq, eq_iff, find, map_get-map_set, Bool-cases, Option-cases, ◌+◌,
  ap, inl, inr, map_set, if◌then◌else◌,
}
use mathlib.Core.Option
use hive_chameleon.Exec.{Result, ok, err}
use hive_chameleon.Exec.Triple.{Post}
use hive_chameleon.Projector.Model.{
  Failure, HafBlock, ProjectionCursor, BlockCheckpoint, OperationDecision, irreversible, reverted,
  is_included, is_reverted,
}
use hive_chameleon.Projector.Store.{
  View, ParentMatches, IsProjectionStore, Applied, Unmoved, Reverted, Finalized, fresh_checkpoint,
  mark_irreversible?,
}
use hive_chameleon.Projector.InMemory.{
  InMemoryProjectionStore, cursor_of, current_checkpoint, is_current_at, parent_differs,
  push_operation, get_cursor, get_current_checkpoint, replace_where, push_decisions,
  set_applied_cursor, apply_block, reverted_store, revert_after, finalized_store, finalize_through,
  in_memory,
}

abbrev pub view : View InMemoryProjectionStore
view = record { written = λ t. t; cursor = cursor_of; checkpoint = current_checkpoint }

abbrev pub or_else {ℓ} : {A : Type ℓ} → Option A → Option A → Option A
or_else none o = o
or_else (some a) o = some a

pub find-append {ℓ} :
    {A : Type ℓ} (p : A → Bool) (xs : List A) (y : A)
    → find p (xs ++ y ∷ []) ≡ or_else (find p xs) (if p y then some y else none)
unfolding find
find-append p [] y = refl
find-append p (x ∷ xs) y = ground (arith, find-append p xs y)

-- Marking the checkpoints above the ancestor hides exactly them.
pub find-revert :
    (source k : String) (ancestor n : ℕ) (at_time : String) (cs : List BlockCheckpoint)
    → find (is_current_at k n) (
        replace_where cs
          (λ c. str_eq c.source source && (ltb ancestor c.number && not (is_reverted c.state)))
          (λ c. record c { state = reverted; reverted_at = some at_time }))
      ≡ (if str_eq source k && ltb ancestor n then none else find (is_current_at k n) cs)
unfolding find replace_where
find-revert source k ancestor n at_time [] = ground arith
find-revert source k ancestor n at_time (c ∷ cs) = ground (
  arith,
  find-revert source k ancestor n at_time cs,
  eq_iff source k,
  eq_iff c.source source,
  eq_iff c.source k,
)

abbrev updated {ℓ} : {A : Type ℓ} → (A → Bool) → (A → A) → A → A
updated q f x = if q x then f x else x

pub find_sound {ℓ} :
    {A : Type ℓ} (p : A → Bool) (xs : List A) {x : A} → find p xs ≡ some x → p x ≡ true
unfolding find
find_sound p [] h = cc
find_sound p (y ∷ ys) {x} h = ground (arith, λ (e : find p ys ≡ some x). find_sound p ys e)

-- A replacement that does not touch the test commutes with the search.
find-replace_where {ℓ} :
    {A : Type ℓ} (p q : A → Bool) (f : A → A) (xs : List A)
    → ((x : A) → p (updated q f x) ≡ p x)
    → find p (replace_where xs q f) ≡ Option.map (updated q f) (find p xs)
unfolding find replace_where
find-replace_where p q f [] h = refl
find-replace_where p q f (x ∷ xs) h = elim (Bool-cases (p x)) [
  | inl e ↦ rw (h x, e)
  | inr e ↦ rw (h x, e) (find-replace_where p q f xs h)
]

-- What finalization does to one current checkpoint.
updated-finalize :
    (source k : String) (through n : ℕ) (at_time : String) (o : Option BlockCheckpoint)
    → ((c : BlockCheckpoint) → o ≡ some c → is_current_at k n c ≡ true)
    → Option.map
        (updated
          (λ c. str_eq c.source source && (leb c.number through && is_included c.state))
          (λ c. record c { state = irreversible; irreversible_at = some at_time }))
        o
      ≡ (if str_eq source k && leb n through then mark_irreversible? at_time o else o)
updated-finalize source k through n at_time none h = ground arith
updated-finalize source k through n at_time (some c) h =
    ground (arith, h c refl, eq_iff source k, eq_iff c.source source, eq_iff c.source k)

pub find-finalize :
    (source k : String) (through n : ℕ) (at_time : String) (cs : List BlockCheckpoint)
    → find (is_current_at k n) (
        replace_where cs
          (λ c. str_eq c.source source && (leb c.number through && is_included c.state))
          (λ c. record c { state = irreversible; irreversible_at = some at_time }))
      ≡ (if str_eq source k && leb n through
          then mark_irreversible? at_time (find (is_current_at k n) cs)
          else find (is_current_at k n) cs)
find-finalize source k through n at_time cs =
    find-replace_where (is_current_at k n)
      (λ c. str_eq c.source source && (leb c.number through && is_included c.state))
      (λ c. record c { state = irreversible; irreversible_at = some at_time }) cs
      (λ c. ground arith)
    ∙ updated-finalize source k through n at_time (find (is_current_at k n) cs)
        (λ c e. find_sound (is_current_at k n) cs e)

push_decisions_keeps :
    (source : String) (ds : List OperationDecision) (s : InMemoryProjectionStore)
    → ((push_decisions source ds s).1.checkpoints ≡ s.checkpoints)
      × ((push_decisions source ds s).1.cursors ≡ s.cursors)
unfolding push_decisions push_operation
push_decisions_keeps source [] s = (refl, refl)
push_decisions_keeps source (d ∷ ds) s =
    ground (arith, push_decisions_keeps source ds (push_operation source d s))

free_elsewhere :
    (source k : String) (number n : ℕ) (s : InMemoryProjectionStore)
    → current_checkpoint s source number ≡ none
    → (str_eq source k && (n == number)) ≡ true
    → current_checkpoint s k n ≡ none
free_elsewhere source k number n s free e = ground (arith, eq_iff source k)

current_checkpoint-append :
    (source k : String) (n : ℕ) (block : HafBlock) (at_time : String) (s : InMemoryProjectionStore)
    → current_checkpoint s source block.number ≡ none
    → find (is_current_at k n) (s.checkpoints ++ fresh_checkpoint source block at_time ∷ []) ≡ (
        if str_eq source k && (n == block.number)
        then some (fresh_checkpoint source block at_time)
        else current_checkpoint s k n)
unfolding current_checkpoint
current_checkpoint-append source k n block at_time s free = rw find-append (
    ground (
      arith,
      eq_iff source k,
      λ (e : (str_eq source k && (n == block.number)) ≡ true).
          free_elsewhere source k block.number n s free e,
    ))

cursor_of-map_set :
    (s : InMemoryProjectionStore) (source k : String) (c : ProjectionCursor)
    → cursor_of (record s { cursors = map_set s.cursors source c }) k
      ≡ (if str_eq source k then c else cursor_of s k)
unfolding cursor_of
cursor_of-map_set s source k c = rw map_get-map_set (ground arith)

Unmoved-refl : (source : String) (s : InMemoryProjectionStore) → Unmoved view source s s
Unmoved-refl source s = record {
  cursors = λ k. refl;
  covered = λ n h. refl;
  others = λ k n h. refl;
}

pub ParentMatches-of :
    (known : Option String) (previous_id : String)
    → parent_differs known previous_id ≡ false
    → ParentMatches known previous_id
ParentMatches-of none previous_id h = inl refl
ParentMatches-of (some known) previous_id h = inr (ground (arith, eq_iff previous_id known))

module _ (source : String) (block : HafBlock) (at_time : String) (s : InMemoryProjectionStore)
    (follows : block.number ≡ (cursor_of s source).last_processed_block + 1)
    (linked : ParentMatches (cursor_of s source).last_processed_block_id block.previous_id)
    (free : current_checkpoint s source block.number ≡ none) where
  pushed_chain :
      (s' : InMemoryProjectionStore) (k : String) (n : ℕ)
      → s'.checkpoints ≡ s.checkpoints ++ fresh_checkpoint source block at_time ∷ []
      → current_checkpoint s' k n ≡ (
          if str_eq source k && (n == block.number)
          then some (fresh_checkpoint source block at_time)
          else current_checkpoint s k n)
  pushed_chain s' k n e =
      unfold current_checkpoint in
      ap (find (is_current_at k n)) e ∙ current_checkpoint-append source k n block at_time s free

  set_applied_cursor_lem :
      (x : Result Failure (Unit {0}) × InMemoryProjectionStore)
      → x.1.checkpoints ≡ s.checkpoints ++ fresh_checkpoint source block at_time ∷ []
      → x.1.cursors ≡ s.cursors
      → Post
          (λ _ s'. Applied view source block at_time s s')
          (λ e s'. Unmoved view source s s')
          (set_applied_cursor source block (cursor_of s source) x)
  unfolding set_applied_cursor cursor_of Post
  set_applied_cursor_lem (ok _, s') hc hk = record {
    follows = follows;
    linked = linked;
    cursors = λ k. rw hk (cursor_of-map_set s source k _);
    chain = λ k n. pushed_chain _ k n hc;
  }
  set_applied_cursor_lem (err e, s') hc hk = record {
    cursors = λ k. unfold cursor_of in rw hk;
    covered = λ n h. ground (arith, pushed_chain s' source n hc);
    others = λ k n h. ground (arith, pushed_chain s' k n hc);
  }

apply_block_lem :
    (source : String) (block : HafBlock) (decisions : List OperationDecision) (at_time : String)
    (s : InMemoryProjectionStore)
    → Post
        (λ _ s'. Applied view source block at_time s s')
        (λ e s'. Unmoved view source s s')
        (apply_block source block decisions at_time s)
unfolding apply_block Post
apply_block_lem source block decisions at_time s =
    elim (Bool-cases (block.number == (cursor_of s source).last_processed_block + 1)) [
      | inr e ↦ rw e (Unmoved-refl source s)
      | inl follows ↦
          elim (Bool-cases
            (parent_differs (cursor_of s source).last_processed_block_id block.previous_id)) [
              | inl e ↦ rw (follows, e) (Unmoved-refl source s)
              | inr linked ↦ elim (Option-cases (current_checkpoint s source block.number)) [
                | inr (c, e) ↦ rw (follows, linked, e) (Unmoved-refl source s)
                | inl free ↦
                    rw (follows, linked, free)
                      (set_applied_cursor_lem source block at_time s (ground arith)
                        (ParentMatches-of _ _ linked) free _
                        (push_decisions_keeps source decisions _).0
                        (push_decisions_keeps source decisions _).1)
              ]
            ]
    ]

-- The lookup of the ancestor after the replacement.
ancestor_kept :
    (source : String) (ancestor : ℕ) (at_time : String) (s : InMemoryProjectionStore)
    → find (is_current_at source ancestor) (
        replace_where s.checkpoints
          (λ c. str_eq c.source source && (ltb ancestor c.number && not (is_reverted c.state)))
          (λ c. record c { state = reverted; reverted_at = some at_time }))
      ≡ find (is_current_at source ancestor) s.checkpoints
ancestor_kept source ancestor at_time s =
    ground (arith, find-revert source source ancestor ancestor at_time s.checkpoints)

reverted_store_lem :
    (source : String) (ancestor : ℕ) (at_time : String) (s : InMemoryProjectionStore)
    → (cursor_of s source).last_irreversible_block ≤ ancestor
    → Reverted view source ancestor s (reverted_store source ancestor at_time s)
unfolding reverted_store cursor_of current_checkpoint
reverted_store_lem source ancestor at_time s h = record {
  allowed = h;
  cursors = λ k. rw (← ancestor_kept source ancestor at_time s) (cursor_of-map_set s source k _);
  chain = λ k n. find-revert source k ancestor n at_time s.checkpoints;
}

revert_after_lem :
    (source : String) (ancestor : ℕ) (at_time : String) (s : InMemoryProjectionStore)
    → Post
        (λ _ s'. Reverted view source ancestor s s')
        (λ e s'. s' ≡ s)
        (revert_after source ancestor at_time s)
unfolding revert_after Post
revert_after_lem source ancestor at_time s =
    elim (Bool-cases (ltb ancestor (cursor_of s source).last_irreversible_block)) [
      | inl e ↦ rw e refl
      | inr e ↦ rw e (reverted_store_lem source ancestor at_time s (ground arith))
    ]

finalized_store_lem :
    (source : String) (block_number : ℕ) (at_time : String) (s : InMemoryProjectionStore)
    → block_number ≤ (cursor_of s source).last_processed_block
    → Finalized view source block_number at_time s (finalized_store source block_number at_time s)
unfolding finalized_store cursor_of current_checkpoint
finalized_store_lem source block_number at_time s h = record {
  processed = h;
  cursors = λ k. cursor_of-map_set s source k _;
  chain = λ k n. find-finalize source k block_number n at_time s.checkpoints;
}

finalize_through_lem :
    (source : String) (block_number : ℕ) (at_time : String) (s : InMemoryProjectionStore)
    → Post
        (λ _ s'. Finalized view source block_number at_time s s')
        (λ e s'. s' ≡ s)
        (finalize_through source block_number at_time s)
unfolding finalize_through Post
finalize_through_lem source block_number at_time s =
    elim (Bool-cases (ltb (cursor_of s source).last_processed_block block_number)) [
      | inl e ↦ rw e refl
      | inr e ↦ rw e (finalized_store_lem source block_number at_time s (ground arith))
    ]

-- The in-memory store implements the interface of the projector: its view is the map of cursors,
-- and for each source and height the first checkpoint there that is not reverted. A reverted
-- lineage is hidden above the ancestor and only there, finalization marks the included
-- checkpoints through its height and only those, and no operation changes the view of another source.
pub in_memory-IsProjectionStore : IsProjectionStore in_memory
unfolding in_memory get_cursor get_current_checkpoint Post
in_memory-IsProjectionStore = record {
  view = view;
  get_cursor_lem = λ source s. (refl, refl);
  get_current_checkpoint_lem = λ source n s. (refl, refl);
  apply_block_lem = apply_block_lem;
  revert_after_lem = revert_after_lem;
  finalize_through_lem = finalize_through_lem;
}
