-- ===== src/Projector/Postgres/Sound.antt =====
-- The store of workers/haf-projector/src/store/postgres-projection-store.ts as an implementation of
-- workers/haf-projector/src/store/projection-store.ts, over the databases in which no checkpoint
-- stands at height zero: an empty database is one, and each method keeps it so.
use std.HLevel.{prop→path_p}
use hive_chameleon.Prelude.{
  ℕ, String, ◌≡◌, refl, sym, subst, ◌∙◌, true, Option, none, List, [], ◌∷◌, arith, ltb, all, find,
  Option-cases, inl, inr,
}
use hive_chameleon.Exec.{Result, ok, err, Exec}
use hive_chameleon.Exec.Triple.{Post, Post-cases, Post-mono}
use hive_chameleon.Projector.Model.{
  BlockCheckpoint, OperationDecision, HafBlock, ProjectionCursor, Failure,
}
use hive_chameleon.Projector.Store.{View, ProjectionStore, IsProjectionStore, Applied, Unmoved}
use hive_chameleon.Projector.InMemory.{is_current_at}
use hive_chameleon.Projector.Postgres.{Database, Server, parse_database_integer}
use hive_chameleon.Projector.Postgres.Statements.{blocks, cursor_row, current_checkpoint, query}
use hive_chameleon.Projector.Postgres.Store.{
  get_cursor, get_current_checkpoint, apply_block, revert_after, finalize_through,
}
use hive_chameleon.Projector.Postgres.Cursors.{view, shown_cursor, IsSound, locked_cursor_eq}
use hive_chameleon.Projector.Postgres.Refines.Apply.{apply_block-Applied}
use hive_chameleon.Projector.Postgres.Refines.Revert.{revert_after-Reverted}
use hive_chameleon.Projector.Postgres.Refines.Finalize.{finalize_through-Finalized}

pub record SoundDatabase : Type 0 where
  pub database : Database
  pub sound : IsSound database

SoundDatabase-eq : (s t : SoundDatabase) → s.database ≡ t.database → s ≡ t
SoundDatabase-eq s t p = λ i. record {
  database = p i;
  sound = prop→path_p (λ i. IsSound (p i)) (hlevel) s.sound t.sound i;
}

-- The state after an action that keeps soundness.
abbrev pub restrict :
    {A : Type 0} (m : Exec Database Failure A)
    → ((w : Database) → IsSound w → IsSound (m w).1)
    → Exec SoundDatabase Failure A
restrict m keep s =
    ((m s.database).0, record { database = (m s.database).1; sound = keep s.database s.sound })

IsSound-of :
    {A : Type 0} (Q : A → Database → Type 0) (db : Database) (x : Result Failure A × Database)
    → IsSound db
    → Post (λ a w. Q a w × IsSound w) (λ e w. w ≡ db) x
    → IsSound x.1
unfolding Post
IsSound-of Q db (ok a, w) sound p = p.1
IsSound-of Q db (err e, w) sound p = subst IsSound (sym p) sound

module _ (server : Server) where
  pub apply-IsSound :
      (source : String) (block : HafBlock) (decisions : List OperationDecision)
      (observed_at : String) (db : Database)
      → IsSound db
      → IsSound (apply_block server source block decisions observed_at db).1
  apply-IsSound source block decisions observed_at db sound =
      IsSound-of _ db _ sound
        (apply_block-Applied server db source block decisions observed_at sound)

  pub revert-IsSound :
      (source : String) (ancestor : ℕ) (reverted_at : String) (db : Database)
      → IsSound db
      → IsSound (revert_after server source ancestor reverted_at db).1
  revert-IsSound source ancestor reverted_at db sound =
      IsSound-of _ db _ sound (revert_after-Reverted server db source ancestor reverted_at sound)

  pub finalize-IsSound :
      (source : String) (block_number : ℕ) (irreversible_at : String) (db : Database)
      → IsSound db
      → IsSound (finalize_through server source block_number irreversible_at db).1
  finalize-IsSound source block_number irreversible_at db sound =
      IsSound-of _ db _ sound
        (finalize_through-Finalized server db source block_number irreversible_at sound)

  -- The methods of `PostgresProjectionStore` on the sound databases.
  unfoldable pub sound_postgres : ProjectionStore SoundDatabase
  unfolding get_cursor get_current_checkpoint query
  sound_postgres = record {
    get_cursor = λ source. restrict (get_cursor source) (λ w h. h);
    get_current_checkpoint = λ source n. restrict (get_current_checkpoint source n) (λ w h. h);
    apply_block = λ source block decisions observed_at.
        restrict (apply_block server source block decisions observed_at)
          (apply-IsSound source block decisions observed_at);
    revert_after = λ source ancestor reverted_at.
        restrict (revert_after server source ancestor reverted_at)
          (revert-IsSound source ancestor reverted_at);
    finalize_through = λ source block_number irreversible_at.
        restrict (finalize_through server source block_number irreversible_at)
          (finalize-IsSound source block_number irreversible_at);
  }

  abbrev pub sound_view : View SoundDatabase
  sound_view = record {
    written = (view server).written;
    cursor = λ s. shown_cursor s.database;
    checkpoint = λ s. current_checkpoint s.database;
  }

floor :
    (k : String) (bs : List BlockCheckpoint)
    → all (λ c. ltb 0 c.number) bs ≡ true
    → find (is_current_at k 0) bs ≡ none
unfolding find
floor k [] h = refl
floor k (b ∷ bs) h = ground (arith, h, floor k bs)

carried :
    {A : Type 0} (Q : A → Database → Type 0) (Q' : A → SoundDatabase → Type 0) (s : SoundDatabase)
    (x : Result Failure A × Database) (s' : SoundDatabase)
    → x.1 ≡ s'.database
    → ((a : A) → Q a s'.database → Q' a s')
    → Post (λ a w. Q a w × IsSound w) (λ e w. w ≡ s.database) x
    → Post Q' (λ e t. t ≡ s) (x.0, s')
unfolding Post
carried Q Q' s (ok a, w) s' same h p = h a (subst (Q a) same p.0)
carried Q Q' s (err e, w) s' same h p = SoundDatabase-eq s' s (sym same ∙ p)

module _ (server : Server) (source : String) (s : SoundDatabase) where
  get_cursor_eq :
      (c : ProjectionCursor)
      → (get_cursor source s.database).0 ≡ ok c
      → c ≡ shown_cursor s.database source
  unfolding get_cursor query current_checkpoint
  get_cursor_eq c h = elim (Option-cases (cursor_row s.database source)) [
    | inl e ↦ ground (arith, h, e, floor source (blocks s.database) s.sound)
    | inr (row, e) ↦ locked_cursor_eq s.database source c (ground (arith, h, e))
  ]

  get_current_checkpoint_eq :
      (n : ℕ) (c : Option BlockCheckpoint)
      → (get_current_checkpoint source n s.database).0 ≡ ok c
      → c ≡ current_checkpoint s.database source n
  unfolding get_current_checkpoint query parse_database_integer
  get_current_checkpoint_eq n c h = elim (Option-cases (current_checkpoint s.database source n)) [
    | inl e ↦ ground (arith, h, e)
    | inr (b, e) ↦ ground (arith, h, e)
  ]

unmoved :
    (server : Server) (source : String) (s : SoundDatabase) → Unmoved (sound_view server) source s s
unmoved server source s = record {
  cursors = λ k. refl;
  covered = λ n h. refl;
  others = λ k n h. refl;
}

-- A writing method that throws leaves its state as it was.
pub record IsAtomic {S : Type 0} (st : ProjectionStore S) : Type 0 where
  pub apply_throws :
      (source : String) (block : HafBlock) (decisions : List OperationDecision) (at_time : String)
      (s : S)
      → Post (λ u t. Unit {0}) (λ e t. t ≡ s) (st.apply_block source block decisions at_time s)
  pub revert_throws :
      (source : String) (ancestor : ℕ) (at_time : String) (s : S)
      → Post (λ u t. Unit {0}) (λ e t. t ≡ s) (st.revert_after source ancestor at_time s)
  pub finalize_throws :
      (source : String) (block_number : ℕ) (at_time : String) (s : S)
      → Post (λ u t. Unit {0}) (λ e t. t ≡ s) (st.finalize_through source block_number at_time s)

sound_postgres-IsAtomic : (server : Server) → IsAtomic (sound_postgres server)
unfolding sound_postgres
sound_postgres-IsAtomic server = record {
  apply_throws = λ source block decisions at_time s.
      carried _ (λ u t. Unit {0}) s (apply_block server source block decisions at_time s.database) _
        refl (λ u a. tt)
        (apply_block-Applied server s.database source block decisions at_time s.sound);
  revert_throws = λ source ancestor at_time s.
      carried _ (λ u t. Unit {0}) s (revert_after server source ancestor at_time s.database) _ refl
        (λ u a. tt) (revert_after-Reverted server s.database source ancestor at_time s.sound);
  finalize_throws = λ source block_number at_time s.
      carried _ (λ u t. Unit {0}) s (finalize_through server source block_number at_time s.database)
        _ refl (λ u a. tt)
        (finalize_through-Finalized server s.database source block_number at_time s.sound);
}

-- The laws of the interface, method by method.
sound_postgres_view_laws : (server : Server) → IsProjectionStore (sound_postgres server)
unfolding sound_postgres get_cursor get_current_checkpoint query
sound_postgres_view_laws server = record {
  view = sound_view server;
  get_cursor_lem = λ source s.
      Post-cases _ _ (get_cursor source s.database).0 s
        (λ c e. (refl, get_cursor_eq server source s c e)) (λ e h. refl);
  get_current_checkpoint_lem = λ source n s.
      Post-cases _ _ (get_current_checkpoint source n s.database).0 s
        (λ c e. (refl, get_current_checkpoint_eq server source s n c e)) (λ e h. refl);
  apply_block_lem = λ source block decisions at_time s.
      Post-mono ((sound_postgres server).apply_block source block decisions at_time s) (λ u w a. a)
        (λ e w same.
          subst (Unmoved (sound_view server) source s) (sym same) (unmoved server source s))
        (carried _ (λ u. Applied (sound_view server) source block at_time s) s
          (apply_block server source block decisions at_time s.database) _ refl
          (λ u a. record {
            follows = a.follows;
            linked = a.linked;
            cursors = a.cursors;
            chain = a.chain;
          })
          (apply_block-Applied server s.database source block decisions at_time s.sound));
  revert_after_lem = λ source ancestor at_time s.
      carried _ _ s (revert_after server source ancestor at_time s.database) _ refl
        (λ u a. record { allowed = a.allowed; cursors = a.cursors; chain = a.chain })
        (revert_after-Reverted server s.database source ancestor at_time s.sound);
  finalize_through_lem = λ source block_number at_time s.
      carried _ _ s (finalize_through server source block_number at_time s.database) _ refl
        (λ u a. record { processed = a.processed; cursors = a.cursors; chain = a.chain })
        (finalize_through-Finalized server s.database source block_number at_time s.sound);
}

-- On the databases in which no checkpoint stands at height zero, which each method keeps so, the
-- store that production runs on implements the interface of the projector, whatever the triggers
-- and checks refuse and whichever ids the provider gives. A writing method that throws or whose
-- commit is refused leaves the whole database as it was. Where it returns, a block that is applied
-- is the current checkpoint at its height and moves the cursor; a reverted lineage is hidden above
-- the ancestor and only there; finalization marks the included checkpoints through its height and
-- only those; and the cursors and current checkpoints of the other sources are as they were.
pub sound_postgres-IsProjectionStore :
    (server : Server) → IsProjectionStore (sound_postgres server) × IsAtomic (sound_postgres server)
sound_postgres-IsProjectionStore server =
    (sound_postgres_view_laws server, sound_postgres-IsAtomic server)
