-- ===== src/Projector/Postgres/Refines/Finalize.antt =====
-- `finalizeThrough` of workers/haf-projector/src/store/postgres-projection-store.ts shows what the interface
-- of workers/haf-projector/src/store/projection-store.ts promises.
use hive_chameleon.Prelude.{
  ℕ, String, ◌≤◌, ◌≡◌, refl, ◌∙◌, ap, true, ◌&&◌, some, List, [], ◌∷◌, arith, ltb, leb, str_eq, all,
  find, if◌then◌else◌, max,
}
use hive_chameleon.Exec.Triple.{
  Post, Triple, Triple-bind, Triple-bind-lift, Triple-given, Triple-pre, Triple-post, Triple-unless,
}
use hive_chameleon.Projector.Model.{BlockCheckpoint, irreversible}
use hive_chameleon.Projector.Store.{View, Finalized, checkpoint_id?, mark_irreversible?}
use hive_chameleon.Projector.InMemory.{is_current_at, replace_where}
use hive_chameleon.Projector.InMemory.Laws.{find-finalize}
use hive_chameleon.Projector.Postgres.{Database, Server, SyncCursorRow}
use hive_chameleon.Projector.Postgres.Statements.{always, blocks, current_checkpoint, update_cursor}
use hive_chameleon.Projector.Postgres.Finality.{finalize_checkpoints, is_through}
use hive_chameleon.Projector.Postgres.Store.{finalize_rows, finalize_locked, finalize_through}
use hive_chameleon.Projector.Postgres.Cursors.{
  view, shown_cursor, row_of, IsSound, Holds, Anything, Triple-execute, Triple-lock, row_of-update,
}
use hive_chameleon.Projector.Postgres.Keeps.{
  Keeps-finalize_match_events, Keeps-finalize_operations, Kept-materialized, SameTables,
}
use hive_chameleon.Projector.Postgres.Refines.{
  transaction_lem, blocks-replace, written_time_eq, shown_lem,
}

module _ (server : Server) (db : Database) (source : String) where
  abbrev v : View Database
  v = view server

  module _ (block_number : ℕ) (irreversible_at : String)
      (processed : block_number ≤ (shown_cursor db source).last_processed_block) where
    abbrev settled_blocks : String → List BlockCheckpoint
    settled_blocks at_time =
        replace_where (blocks db) (is_through source block_number)
          (λ c. record c { state = irreversible; irreversible_at = some at_time })

    abbrev settled_row : SyncCursorRow
    settled_row = record (row_of db source) {
      last_irreversible_block = max (row_of db source).last_irreversible_block block_number;
    }

    abbrev Settled : Database → Type 0
    Settled w =
        ((k : String) → row_of w k ≡ (if str_eq source k then settled_row else row_of db k))
        × (blocks w ≡ settled_blocks (v.written irreversible_at))

    Settled-same : (w w' : Database) → SameTables w w' → Settled w → Settled w'
    Settled-same w w' same h = (λ k. rw same.0 (h.0 k), rw same.1 h.1)

    finalized_lem :
        (w : Database) → Settled w → Finalized v source block_number irreversible_at db w
    unfolding current_checkpoint
    finalized_lem w p =
        let chain : (k : String) (n : ℕ)
            → current_checkpoint w k n ≡ (
                if str_eq source k && leb n block_number
                then mark_irreversible? (v.written irreversible_at) (current_checkpoint db k n)
                else current_checkpoint db k n) =
          λ k n.
            ap (find (is_current_at k n)) p.1
            ∙ find-finalize source k block_number n (v.written irreversible_at) (blocks db) in
        record {
          processed = processed;
          cursors = λ k.
              shown_lem db w source k settled_row
                (checkpoint_id?
                  (current_checkpoint db source (row_of db source).last_processed_block))
                (p.0 k) (ground (arith, chain source (row_of db source).last_processed_block))
                (λ n e. ground (arith, e, chain k n));
          chain = chain;
        }

    sound_finalize :
        (bs : List BlockCheckpoint) (at_time : String)
        → all (λ c. ltb 0 c.number) bs ≡ true
        → all
            (λ c. ltb 0 c.number)
            (replace_where bs
              (is_through source block_number)
              (λ c. record c { state = irreversible; irreversible_at = some at_time }))
          ≡ true
    unfolding replace_where
    sound_finalize [] at_time h = refl
    sound_finalize (b ∷ bs) at_time h = ground (arith, h, sound_finalize bs at_time)

    Triple-finalize_rows :
        IsSound db
        → Triple
            (Holds db source (blocks db))
            (finalize_rows server source block_number irreversible_at)
            (λ u w. Finalized v source block_number irreversible_at db w × IsSound w)
            Anything
    unfolding finalize_rows finalize_checkpoints update_cursor
    Triple-finalize_rows sound =
        Triple-bind-lift _ _
          (λ at_time ht.
            Triple-bind _ _
              (Keeps-finalize_match_events server db source (blocks db) block_number at_time)
              λ u.
                Triple-bind _ _
                  (Keeps-finalize_operations server db source (blocks db) block_number at_time)
                  λ u.
                    Triple-bind _ _
                      (Triple-execute {Q = Holds db source (settled_blocks at_time)} always _
                        λ w e p. record {
                          rows = p.rows;
                          present = p.present;
                          same =
                              blocks-replace w.checkpoints (is_through source block_number) _
                              ∙ ap
                                  (λ bs. replace_where bs (is_through source block_number) (λ c.
                                    record c {
                                      state = irreversible;
                                      irreversible_at = some at_time;
                                    }))
                                  p.same;
                        })
                      λ u.
                        Triple-bind _ _
                          (Triple-execute {Q = Settled} always _ λ w e p. (
                            row_of-update db w source _ _ (λ r. refl) p,
                            p.same
                                ∙ ap settled_blocks
                                    (written_time_eq server irreversible_at at_time ht),
                          ))
                          λ u.
                            Triple-post _
                              (Kept-materialized server Settled Settled-same source block_number
                                at_time)
                              (λ u w p. (
                                finalized_lem w p,
                                rw p.1
                                    (sound_finalize (blocks db) (v.written irreversible_at) sound),
                              ))
                              (λ e w p. tt))
          (λ e h w p. tt)

  -- The store promises what the interface does of `finalizeThrough`, and stays sound.
  pub finalize_through-Finalized :
      (block_number : ℕ) (irreversible_at : String)
      → IsSound db
      → Post
          (λ u w. Finalized v source block_number irreversible_at db w × IsSound w)
          (λ e w. w ≡ db)
          (finalize_through server source block_number irreversible_at db)
  unfolding finalize_through finalize_locked
  finalize_through-Finalized block_number irreversible_at sound =
      transaction_lem server (finalize_locked server source block_number irreversible_at) _ db (
        Triple-bind _ _ (Triple-lock db source) λ cursor. Triple-given _ λ w₀ locked.
          Triple-unless _ _ _ (λ e w p. tt)
            λ processed.
              Triple-pre _
                (Triple-finalize_rows block_number irreversible_at
                  (ground (arith, processed, locked.1)) sound)
                λ w p. p.0)
