-- ===== src/Projector/Postgres/Refines.antt =====
-- What the proofs on the three writing operations of
-- workers/haf-projector/src/store/postgres-projection-store.ts share: transactions, and the rows of
-- the checkpoints as the interface of workers/haf-projector/src/store/projection-store.ts sees them.
pub mod Apply
pub mod Revert
pub mod Finalize
use hive_chameleon.Prelude.{
  ℕ, String, ◌+◌, ◌≤◌, ◌≡◌, refl, sym, subst, ◌∙◌, ap, Bool, true, false, ◌&&◌, Option, none, some,
  List, [], ◌∷◌, ◌++◌, map, arith, ltb, leb, ◌==◌, str_eq, eq_iff, eq_refl, any, all, find,
  if◌then◌else◌, max, inl, inr, Bool-cases,
}
use hive_chameleon.Exec.{Result, ok, err, Exec}
use hive_chameleon.Exec.Triple.{
  Post, Triple, Triple-bind, Triple-bind-lift, Triple-given, Triple-pre, Triple-post, Triple-unless,
}
use hive_chameleon.Projector.Model.{
  HafBlock, BlockCheckpoint, OperationDecision, Failure, reverted, irreversible,
}
use hive_chameleon.Projector.Store.{
  View, ParentMatches, Applied, Reverted, Finalized, fresh_checkpoint, checkpoint_id?,
  written_checkpoint, mark_irreversible?,
}
use hive_chameleon.Projector.InMemory.{is_current_at, replace_where}
use hive_chameleon.Projector.InMemory.Laws.{
  find-append, find-revert, find-finalize, ParentMatches-of,
}
use hive_chameleon.Projector.Postgres.{
  Database, Server, SyncCursorRow, CheckpointRow, end_transaction, in_transaction,
}
use hive_chameleon.Projector.Postgres.Statements.{
  always, blocks, current_checkpoint, written_time, update_cursor,
}
use hive_chameleon.Projector.Postgres.Inserts.{insert_checkpoint, checkpoint_conflicts}
use hive_chameleon.Projector.Postgres.Finality.{
  revert_checkpoints, finalize_checkpoints, is_above, is_through,
}
use hive_chameleon.Projector.Postgres.Store.{
  insert_block, apply_locked, apply_block, revert_rows, revert_locked, revert_after, finalize_rows,
  finalize_locked, finalize_through,
}
use hive_chameleon.Projector.Postgres.Cursors.{
  view, shown_cursor, row_of, IsSound, Holds, Anything, Triple-execute, Triple-lock, row_of-update,
}
use hive_chameleon.Projector.Postgres.Keeps.{
  Keeps-next_id, Keeps-insert_decisions, Keeps-revert_match_events, Keeps-revert_operations,
  Keeps-finalize_match_events, Keeps-finalize_operations, Kept-materialized, SameTables,
}

ended :
    (server : Server) (Q : Database → Type 0) (db : Database)
    (x : Result Failure (Unit {0}) × Database)
    → Post (λ u. Q) Anything x
    → Post (λ u. Q) (λ e w. w ≡ db) (end_transaction server db x)
unfolding end_transaction Post
ended server Q db (ok u, w) p = elim (Bool-cases (server.admits db w)) [
  | inl e ↦ rw e p
  | inr e ↦ rw e refl
]
ended server Q db (err e, w) p = refl

-- Work that is right where it returns makes a transaction that is right: after a throw, and where
-- the commit is refused, the database is as it was.
pub transaction_lem :
    (server : Server) (work : Exec Database Failure (Unit {0})) (Q : Database → Type 0)
    (db : Database)
    → Triple (λ w. w ≡ db) work (λ u. Q) Anything
    → Post (λ u. Q) (λ e w. w ≡ db) (in_transaction server work db)
unfolding in_transaction
transaction_lem server work Q db h = ended server Q db (work db) (h.at db refl)

pub blocks-append :
    (rows : List CheckpointRow) (r : CheckpointRow)
    → map (λ r. r.checkpoint) (rows ++ r ∷ []) ≡ map (λ r. r.checkpoint) rows ++ r.checkpoint ∷ []
blocks-append [] r = refl
blocks-append (s ∷ rows) r = ap (λ l. s.checkpoint ∷ l) (blocks-append rows r)

pub blocks-replace :
    (rows : List CheckpointRow) (test : BlockCheckpoint → Bool)
    (change : BlockCheckpoint → BlockCheckpoint)
    → map
        (λ r. r.checkpoint)
        (replace_where rows
          (λ r. test r.checkpoint)
          (λ r. record r { checkpoint = change r.checkpoint }))
      ≡ replace_where (map (λ r. r.checkpoint) rows) test change
unfolding replace_where
blocks-replace [] test change = refl
blocks-replace (r ∷ rows) test change = ground (arith, blocks-replace rows test change)

-- The height of a checkpoint that meets no conflict is free.
pub free_height :
    (id : String) (c : BlockCheckpoint) (rows : List CheckpointRow)
    → any (checkpoint_conflicts id c) rows ≡ false
    → find (is_current_at c.source c.number) (map (λ r. r.checkpoint) rows) ≡ none
unfolding find
free_height id c [] h = refl
free_height id c (r ∷ rows) h = ground (arith, free_height id c rows)

pub written_time_eq :
    (server : Server) (text time : String)
    → written_time server text ≡ ok time
    → time ≡ (view server).written text
unfolding written_time
written_time_eq server text time h = ground (arith, h)

pub find-fresh :
    (source k : String) (n : ℕ) (block : HafBlock) (at_time : String) (bs : List BlockCheckpoint)
    → find (is_current_at source block.number) bs ≡ none
    → find (is_current_at k n) (bs ++ fresh_checkpoint source block at_time ∷ []) ≡ (
        if str_eq source k && (n == block.number)
        then some (fresh_checkpoint source block at_time)
        else find (is_current_at k n) bs)
find-fresh source k n block at_time bs free =
    rw (find-append (is_current_at k n) bs (fresh_checkpoint source block at_time))
      (elim (Bool-cases (str_eq source k && (n == block.number))) [
        | inl e ↦
            let here : find (is_current_at k n) bs ≡ none =
              ground (arith, e, eq_iff source k, free) in
            ground (arith, here, e, eq_iff source k)
        | inr e ↦ ground (arith, e, eq_iff source k)
      ])

pub shown_lem :
    (db w : Database) (source k : String) (row : SyncCursorRow) (tip : Option String)
    → row_of w k ≡ (if str_eq source k then row else row_of db k)
    → checkpoint_id? (current_checkpoint w source row.last_processed_block) ≡ tip
    → ((n : ℕ) → str_eq source k ≡ false → current_checkpoint w k n ≡ current_checkpoint db k n)
    → shown_cursor w k ≡ (
        if str_eq source k
        then record {
          source = source;
          last_processed_block = row.last_processed_block;
          last_processed_block_id = tip;
          last_irreversible_block = row.last_irreversible_block;
        }
        else shown_cursor db k)
shown_lem db w source k row tip hr ht ho = elim (Bool-cases (str_eq source k)) [
  | inl e ↦
      let same : source ≡ k = ground (arith, e, eq_iff source k) in
      let here : row_of w k ≡ row = ground (arith, e, hr) in ground (arith, e, same, here, ht)
  | inr e ↦
      let here : row_of w k ≡ row_of db k = ground (arith, e, hr) in
      ground (arith, e, here, ho (row_of db k).last_processed_block e)
]
