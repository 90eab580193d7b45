-- ===== src/Projector/Postgres/Reinclusion.antt =====
-- A block that comes back after a fork: `applyBlock` of
-- workers/haf-projector/src/store/postgres-projection-store.ts under the unique index
-- `uq_block_checkpoint_source_id` of infra/postgres/migrations/20260716000100_baseline.sql, which
-- does not leave out reverted rows.
use hive_chameleon.Prelude.{
  String, ◌≡◌, ap, ◌∙◌, Bool, true, ◌&&◌, List, [], ◌∷◌, any, arith, str_eq, map,
}
use hive_chameleon.Exec.{Result, ok, err}
use hive_chameleon.Exec.Triple.{
  Post, Triple, Triple-bind, Triple-bind-lift, Triple-given, Triple-pre, Triple-unless,
}
use hive_chameleon.Projector.Model.{BlockCheckpoint, HafBlock, OperationDecision, Failure}
use hive_chameleon.Projector.Store.{fresh_checkpoint}
use hive_chameleon.Projector.Postgres.{Database, Server, CheckpointRow}
use hive_chameleon.Projector.Postgres.Statements.{blocks}
use hive_chameleon.Projector.Postgres.Inserts.{insert_checkpoint, checkpoint_conflicts}
use hive_chameleon.Projector.Postgres.Store.{insert_block, apply_locked, apply_block}
use hive_chameleon.Projector.Postgres.Cursors.{Holds, Anything, Triple-execute, Triple-lock}
use hive_chameleon.Projector.Postgres.Keeps.{Keeps-next_id}
use hive_chameleon.Projector.Postgres.Refines.{transaction_lem}

-- The source has a checkpoint of a block with this identity, current or reverted.
abbrev pub has_seen : String → String → List BlockCheckpoint → Bool
has_seen source id bs = any (λ c. str_eq c.source source && str_eq c.id id) bs

seen_conflicts :
    (id : String) (c : BlockCheckpoint) (rows : List CheckpointRow)
    → has_seen c.source c.id (map (λ r. r.checkpoint) rows) ≡ true
    → any (checkpoint_conflicts id c) rows ≡ true
seen_conflicts id c [] h = ground (arith, h)
seen_conflicts id c (r ∷ rows) h = ground (arith, h, seen_conflicts id c rows)

failed :
    (db : Database) (x : Result Failure (Unit {0}) × Database)
    → Post (λ u w. ⊥) (λ e w. w ≡ db) x
    → (e : Failure) × (x ≡ (err e, db))
unfolding Post
failed db (ok u, w) p = absurd p
failed db (err e, w) p = (e, ap (λ w. (err e, w)) p)

module _ (server : Server) (source : String) (block : HafBlock) (decisions : List OperationDecision)
    (observed_at : String) (db : Database)
    (seen : has_seen source block.id (blocks db) ≡ true) where
  Triple-insert_seen :
      Triple
        (Holds db source (blocks db))
        (insert_block server source block decisions observed_at)
        (λ u w. ⊥)
        Anything
  unfolding insert_block insert_checkpoint
  Triple-insert_seen = Triple-bind _ _ (Keeps-next_id server db source (blocks db)) λ id.
      Triple-bind-lift _ _
        (λ timestamp ht.
          Triple-bind-lift _ _
            (λ observed ho.
              Triple-bind _ _
                (Triple-execute {Q = λ w. ⊥} _ _ λ w e p.
                  let there : has_seen source block.id (blocks w) ≡ true =
                    ap (has_seen source block.id) p.same ∙ seen in
                  let both =
                    seen_conflicts id
                      (fresh_checkpoint source (record block { timestamp = timestamp }) observed)
                      w.checkpoints there in
                  ground (arith, e, both))
                λ u. record { at = λ w p. absurd p })
            (λ e h w p. tt))
        (λ e h w p. tt)

  -- A block whose identity the source has seen, reverted or not, can never be applied: every
  -- attempt throws and leaves the database as it is, whatever the cursor. So a chain that goes
  -- back to an abandoned branch stops the projector.
  pub apply_block_seen :
      (e : Failure) × (apply_block server source block decisions observed_at db ≡ (err e, db))
  unfolding apply_block apply_locked
  apply_block_seen = failed db (apply_block server source block decisions observed_at db) (
      transaction_lem server (apply_locked server source block decisions observed_at) (λ w. ⊥) db
        (Triple-bind _ _ (Triple-lock db source) λ cursor. Triple-given _ λ w₀ locked.
          Triple-unless _ _ _ (λ e w p. tt)
            λ follows.
              Triple-unless _ _ _ (λ e w p. tt)
                λ linked. Triple-pre _ Triple-insert_seen λ w p. p.0))
