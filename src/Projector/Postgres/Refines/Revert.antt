-- ===== src/Projector/Postgres/Refines/Revert.antt =====
-- `revertAfter` of workers/haf-projector/src/store/postgres-projection-store.ts shows what the interface
-- of workers/haf-projector/src/store/projection-store.ts promises.
use hive_chameleon.Prelude.{
  ℕ, String, ◌≤◌, ◌≡◌, refl, ◌∙◌, ap, true, ◌&&◌, none, some, List, [], ◌∷◌, arith, ltb, str_eq,
  all, find, if◌then◌else◌,
}
use hive_chameleon.Exec.Triple.{
  Post, Triple, Triple-bind, Triple-bind-lift, Triple-given, Triple-pre, Triple-unless,
}
use hive_chameleon.Projector.Model.{BlockCheckpoint, reverted}
use hive_chameleon.Projector.Store.{View, Reverted, checkpoint_id?}
use hive_chameleon.Projector.InMemory.{is_current_at, replace_where}
use hive_chameleon.Projector.InMemory.Laws.{find-revert}
use hive_chameleon.Projector.Postgres.{Database, Server}
use hive_chameleon.Projector.Postgres.Statements.{always, blocks, current_checkpoint, update_cursor}
use hive_chameleon.Projector.Postgres.Finality.{revert_checkpoints, is_above}
use hive_chameleon.Projector.Postgres.Store.{revert_rows, revert_locked, revert_after}
use hive_chameleon.Projector.Postgres.Cursors.{
  view, shown_cursor, row_of, IsSound, Holds, Anything, Triple-execute, Triple-lock, row_of-update,
}
use hive_chameleon.Projector.Postgres.Keeps.{Keeps-revert_match_events, Keeps-revert_operations}
use hive_chameleon.Projector.Postgres.Refines.{transaction_lem, blocks-replace, shown_lem}

module _ (server : Server) (db : Database) (source : String) where
  abbrev v : View Database
  v = view server

  module _ (ancestor : ℕ)
      (allowed : (shown_cursor db source).last_irreversible_block ≤ ancestor) where
    abbrev reverted_blocks : String → List BlockCheckpoint
    reverted_blocks at_time =
        replace_where (blocks db) (is_above source ancestor)
          (λ c. record c { state = reverted; reverted_at = some at_time })

    reverted_lem :
        (reverted_at : String) (w : Database)
        → Holds db source
            (replace_where
              (blocks db)
              (is_above source ancestor)
              (λ c. record c { state = reverted; reverted_at = some reverted_at }))
            w
        → Reverted v source ancestor db (record w {
          sync_cursors =
              replace_where w.sync_cursors
                (λ r. str_eq r.source source)
                (λ r. record r { last_processed_block = ancestor });
        })
    unfolding current_checkpoint
    reverted_lem reverted_at w p =
        let chain : (k : String) (n : ℕ)
            → current_checkpoint w k n
              ≡ (if str_eq source k && ltb ancestor n then none else current_checkpoint db k n) =
          λ k n.
            ap (find (is_current_at k n)) p.same
            ∙ find-revert source k ancestor n reverted_at (blocks db) in
        record {
          allowed = allowed;
          cursors = λ k.
              shown_lem db
                (record w {
                  sync_cursors =
                      replace_where w.sync_cursors (λ r. str_eq r.source source)
                        (λ r. record r { last_processed_block = ancestor });
                })
                source k (record (row_of db source) { last_processed_block = ancestor })
                (checkpoint_id? (current_checkpoint db source ancestor))
                (row_of-update db w source _ _ (λ r. refl) p k)
                (ground (arith, chain source ancestor)) (λ n e. ground (arith, e, chain k n));
          chain = chain;
        }

    sound_revert :
        (bs : List BlockCheckpoint) (at_time : String)
        → all (λ c. ltb 0 c.number) bs ≡ true
        → all
            (λ c. ltb 0 c.number)
            (replace_where bs
              (is_above source ancestor)
              (λ c. record c { state = reverted; reverted_at = some at_time }))
          ≡ true
    unfolding replace_where
    sound_revert [] at_time h = refl
    sound_revert (b ∷ bs) at_time h = ground (arith, h, sound_revert bs at_time)

    Triple-revert_rows :
        IsSound db
        → (written : String)
        → Triple
            (Holds db source (blocks db))
            (revert_rows server source ancestor written)
            (λ u w. Reverted v source ancestor db w × IsSound w)
            Anything
    unfolding revert_rows revert_checkpoints update_cursor
    Triple-revert_rows sound written =
        Triple-bind-lift _ _
          (λ at_time ht.
            Triple-bind _ _
              (Keeps-revert_match_events server db source (blocks db) ancestor at_time)
              λ u.
                Triple-bind _ _
                  (Keeps-revert_operations server db source (blocks db) ancestor at_time)
                  λ u.
                    Triple-bind _ _
                      (Triple-execute {Q = Holds db source (reverted_blocks at_time)} _ _ λ w e p.
                        record {
                          rows = p.rows;
                          present = p.present;
                          same =
                              blocks-replace w.checkpoints (is_above source ancestor) _
                              ∙ ap
                                  (λ bs. replace_where bs (is_above source ancestor) (λ c.
                                    record c { state = reverted; reverted_at = some at_time }))
                                  p.same;
                        })
                      λ u. Triple-execute always _ λ w e p. (
                        reverted_lem at_time w p,
                        rw p.same (sound_revert (blocks db) at_time sound),
                      ))
          (λ e h w p. tt)

  -- The store promises what the interface does of `revertAfter`, and stays sound.
  pub revert_after-Reverted :
      (ancestor : ℕ) (reverted_at : String)
      → IsSound db
      → Post
          (λ u w. Reverted v source ancestor db w × IsSound w)
          (λ e w. w ≡ db)
          (revert_after server source ancestor reverted_at db)
  unfolding revert_after revert_locked
  revert_after-Reverted ancestor reverted_at sound =
      transaction_lem server (revert_locked server source ancestor reverted_at) _ db (
        Triple-bind _ _ (Triple-lock db source) λ cursor. Triple-given _ λ w₀ locked.
          Triple-unless _ _ _ (λ e w p. tt)
            λ allowed.
              Triple-pre _
                (Triple-revert_rows ancestor (ground (arith, allowed, locked.1)) sound reverted_at)
                λ w p. p.0)
