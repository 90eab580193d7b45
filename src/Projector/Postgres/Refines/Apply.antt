-- ===== src/Projector/Postgres/Refines/Apply.antt =====
-- `applyBlock` of workers/haf-projector/src/store/postgres-projection-store.ts shows what the interface
-- of workers/haf-projector/src/store/projection-store.ts promises.
use hive_chameleon.Prelude.{
  ℕ, String, ◌+◌, ◌≡◌, refl, sym, subst, ◌∙◌, ap, true, false, ◌&&◌, none, some, List, [], ◌∷◌,
  ◌++◌, arith, ltb, ◌==◌, str_eq, eq_refl, any, all, find, if◌then◌else◌,
}
use hive_chameleon.Exec.Triple.{
  Post, Triple, Triple-bind, Triple-bind-lift, Triple-given, Triple-pre, Triple-unless,
}
use hive_chameleon.Projector.Model.{HafBlock, BlockCheckpoint, OperationDecision}
use hive_chameleon.Projector.Store.{
  View, ParentMatches, Applied, fresh_checkpoint, written_checkpoint,
}
use hive_chameleon.Projector.InMemory.{is_current_at, replace_where}
use hive_chameleon.Projector.InMemory.Laws.{ParentMatches-of}
use hive_chameleon.Projector.Postgres.{Database, Server}
use hive_chameleon.Projector.Postgres.Statements.{always, blocks, current_checkpoint, update_cursor}
use hive_chameleon.Projector.Postgres.Inserts.{insert_checkpoint, checkpoint_conflicts}
use hive_chameleon.Projector.Postgres.Store.{insert_block, apply_locked, apply_block}
use hive_chameleon.Projector.Postgres.Cursors.{
  view, shown_cursor, row_of, IsSound, Holds, Anything, Triple-execute, Triple-lock, row_of-update,
}
use hive_chameleon.Projector.Postgres.Keeps.{Keeps-next_id, Keeps-insert_decisions}
use hive_chameleon.Projector.Postgres.Refines.{
  transaction_lem, blocks-append, free_height, written_time_eq, find-fresh, shown_lem,
}

module _ (server : Server) (db : Database) (source : String) where
  abbrev v : View Database
  v = view server

  module _ (block : HafBlock) (decisions : List OperationDecision) (observed_at : String)
      (follows : block.number ≡ (shown_cursor db source).last_processed_block + 1)
      (linked : ParentMatches
        (shown_cursor db source).last_processed_block_id
        block.previous_id) where
    abbrev fresh : BlockCheckpoint
    fresh = written_checkpoint v source source block observed_at

    abbrev Inserted : Database → Type 0
    Inserted w =
        Holds db source (blocks db ++ fresh ∷ []) w
        × (current_checkpoint db source block.number ≡ none)

    inserted_lem :
        (id : String) (w : Database)
        → any (checkpoint_conflicts id fresh) w.checkpoints ≡ false
        → Holds db source (blocks db) w
        → Inserted (record w {
          checkpoints = w.checkpoints ++ record { id = id; checkpoint = fresh } ∷ [];
        })
    unfolding current_checkpoint
    inserted_lem id w e p = (
      record {
        rows = p.rows;
        present = p.present;
        same = blocks-append w.checkpoints _ ∙ ap (λ l. l ++ fresh ∷ []) p.same;
      },
      ap (find (is_current_at source block.number)) (sym p.same)
          ∙ free_height id fresh w.checkpoints e,
    )

    Inserted-eq :
        (id : String) (w : Database) (c : BlockCheckpoint)
        → Holds db source (blocks db) w
        → c ≡ fresh
        → any (checkpoint_conflicts id c) w.checkpoints ≡ false
        → Inserted
            (record w { checkpoints = w.checkpoints ++ record { id = id; checkpoint = c } ∷ [] })
    Inserted-eq id w c p same =
        subst
          (λ c.
            any (checkpoint_conflicts id c) w.checkpoints ≡ false
            → Inserted (record w {
              checkpoints = w.checkpoints ++ record { id = id; checkpoint = c } ∷ [];
            }))
          (sym same) (λ e. inserted_lem id w e p)

    applied_chain :
        (w : Database)
        → Inserted w
        → (k : String) (n : ℕ)
        → current_checkpoint w k n ≡ (
            if str_eq source k && (n == block.number)
            then some fresh
            else current_checkpoint db k n)
    unfolding current_checkpoint
    applied_chain w p k n =
        ap (find (is_current_at k n)) p.0.same
        ∙ find-fresh source k n (record block { timestamp = v.written block.timestamp })
            (v.written observed_at) (blocks db) p.1

    applied_lem :
        (w : Database)
        → Inserted w
        → Applied v source block observed_at db (record w {
          sync_cursors =
              replace_where w.sync_cursors
                (λ r. str_eq r.source source)
                (λ r. record r { last_processed_block = block.number });
        })
    unfolding current_checkpoint
    applied_lem w p = record {
      follows = follows;
      linked = linked;
      cursors = λ k.
          shown_lem db
            (record w {
              sync_cursors =
                  replace_where w.sync_cursors (λ r. str_eq r.source source)
                    (λ r. record r { last_processed_block = block.number });
            })
            source k (record (row_of db source) { last_processed_block = block.number })
            (some block.id) (row_of-update db w source _ _ (λ r. refl) p.0 k)
            (ground (arith, applied_chain w p source block.number, eq_refl source))
            (λ n e. ground (arith, e, applied_chain w p k n));
      chain = λ k n. applied_chain w p k n;
    }

    sound_append :
        (bs : List BlockCheckpoint) (c : BlockCheckpoint)
        → all (λ c. ltb 0 c.number) bs ≡ true
        → ltb 0 c.number ≡ true
        → all (λ c. ltb 0 c.number) (bs ++ c ∷ []) ≡ true
    sound_append [] c hb hc = ground (arith, hc)
    sound_append (b ∷ bs) c hb hc = ground (arith, hb, sound_append bs c)

    Triple-insert_block :
        IsSound db
        → Triple
            (Holds db source (blocks db))
            (insert_block server source block decisions observed_at)
            (λ u w. Applied v source block observed_at db w × IsSound w)
            Anything
    unfolding insert_block insert_checkpoint update_cursor
    Triple-insert_block sound = Triple-bind _ _ (Keeps-next_id server db source (blocks db)) λ id.
        Triple-bind-lift _ _
          (λ timestamp ht.
            Triple-bind-lift _ _
              (λ observed ho.
                Triple-bind _ _
                  (Triple-execute {Q = Inserted} _ _ λ w e p.
                    Inserted-eq id w _ p
                      (λ i.
                        fresh_checkpoint source
                          (record block {
                            timestamp = written_time_eq server block.timestamp timestamp ht i;
                          })
                          (written_time_eq server observed_at observed ho i))
                      e)
                  λ u. Triple-given _ λ w₀ i₀.
                    Triple-bind _ _
                      (Triple-pre _
                        (Keeps-insert_decisions server db source (blocks db ++ fresh ∷ []) id
                          decisions)
                        (λ w i. i.0))
                      λ u. Triple-execute always _ λ w e p. (
                        applied_lem w (p, i₀.1),
                        rw p.same (sound_append (blocks db) fresh sound (ground (arith, follows))),
                      ))
              (λ e h w p. tt))
          (λ e h w p. tt)

  -- The store promises what the interface does of `applyBlock`, and stays sound.
  pub apply_block-Applied :
      (block : HafBlock) (decisions : List OperationDecision) (observed_at : String)
      → IsSound db
      → Post
          (λ u w. Applied v source block observed_at db w × IsSound w)
          (λ e w. w ≡ db)
          (apply_block server source block decisions observed_at db)
  unfolding apply_block apply_locked
  apply_block-Applied block decisions observed_at sound =
      transaction_lem server (apply_locked server source block decisions observed_at) _ db (
        Triple-bind _ _ (Triple-lock db source) λ cursor. Triple-given _ λ w₀ locked.
          Triple-unless _ _ _ (λ e w p. tt)
            λ follows.
              Triple-unless _ _ _ (λ e w p. tt)
                λ linked.
                  Triple-pre _
                    (Triple-insert_block block decisions observed_at
                      (ground (arith, follows, locked.1))
                      (subst (λ c. ParentMatches c.last_processed_block_id block.previous_id)
                        locked.1
                        (ParentMatches-of cursor.last_processed_block_id block.previous_id linked))
                      sound)
                    λ w p. p.0)
