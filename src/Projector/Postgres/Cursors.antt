-- ===== src/Projector/Postgres/Cursors.antt =====
-- What the cursors and checkpoints of a database show, and which statements leave them alone:
-- workers/haf-projector/src/store/postgres-projection-store.ts.
use hive_chameleon.Prelude.{
  String, ◌≡◌, refl, sym, subst, ◌∙◌, Bool, true, false, Option, none, some, List, [], ◌∷◌, ◌++◌,
  arith, ltb, str_eq, eq_iff, eq_refl, is_some, all, find, if◌then◌else◌, if_cases, Option-cases,
  inl, inr,
}
use mathlib.Core.Option
use hive_chameleon.Exec.{Result, ok, err}
use hive_chameleon.Exec.Triple.{Post, Post-cases, Triple, Triple-bind}
use hive_chameleon.Projector.Model.{ProjectionCursor, BlockCheckpoint, Failure, unexpected}
use hive_chameleon.Projector.Store.{View, checkpoint_id?}
use hive_chameleon.Projector.InMemory.{replace_where, is_current_at}
use hive_chameleon.Projector.InMemory.Laws.{find-append, find_sound}
use hive_chameleon.Projector.Postgres.{Database, Server, SyncCursorRow, parse_database_integer}
use hive_chameleon.Projector.Postgres.Statements.{
  query, execute, cursor_row, blocks, current_checkpoint, cursor_from_row, initial_row, ensured,
  locked_cursor, lock_cursor, always,
}

abbrev or_initial : String → Option SyncCursorRow → SyncCursorRow
or_initial source none = initial_row source
or_initial source (some row) = row

-- The row of a source, or the one that would be inserted for it.
abbrev pub row_of : Database → String → SyncCursorRow
row_of db source = or_initial source (cursor_row db source)

abbrev pub shown_cursor : Database → String → ProjectionCursor
shown_cursor db source = record {
  source = source;
  last_processed_block = (row_of db source).last_processed_block;
  last_processed_block_id =
      checkpoint_id? (current_checkpoint db source (row_of db source).last_processed_block);
  last_irreversible_block = (row_of db source).last_irreversible_block;
}

abbrev or_text : String → Option String → String
or_text text none = text
or_text text (some other) = other

abbrev pub view : Server → View Database
view server = record {
  written = λ text. or_text text (server.timestamp text);
  cursor = shown_cursor;
  checkpoint = current_checkpoint;
}

-- No checkpoint stands at height zero.
abbrev pub IsSound : Database → Type 0
IsSound db = all (λ c. ltb 0 c.number) (blocks db) ≡ true

abbrev has_source : String → SyncCursorRow → Bool
has_source source r = str_eq r.source source

row_initial :
    (rows : List SyncCursorRow) (source k : String)
    → or_initial k (find (has_source k) (rows ++ initial_row source ∷ []))
      ≡ or_initial k (find (has_source k) rows)
row_initial rows source k =
    rw (find-append (has_source k) rows (initial_row source)) (ground (arith, eq_iff source k))

row_update :
    (rows : List SyncCursorRow) (source k : String) (change : SyncCursorRow → SyncCursorRow)
    → ((r : SyncCursorRow) → (change r).source ≡ r.source)
    → find (has_source k) (replace_where rows (has_source source) change) ≡ (
        if str_eq source k
        then Option.map change (find (has_source source) rows)
        else find (has_source k) rows)
unfolding find replace_where
row_update [] source k change h = ground arith
row_update (r ∷ rows) source k change h = ground (
  arith,
  row_update rows source k change h,
  h r,
  eq_iff source k,
  eq_iff r.source source,
  eq_iff r.source k,
)

row_of_source : (db : Database) (source : String) → (row_of db source).source ≡ source
row_of_source db source = elim (Option-cases (cursor_row db source)) [
  | inl e ↦ rw e refl
  | inr (row, e) ↦
      rw e
        (ground (arith, eq_iff row.source source, find_sound (has_source source) db.sync_cursors e))
]

-- A state of a transaction on `db`: the cursors show what they did, the row of the source is there,
-- and the checkpoints are these.
pub record Holds (db : Database) (source : String) (bs : List BlockCheckpoint) (w : Database)
    : Type 0 where
  pub rows : (k : String) → row_of w k ≡ row_of db k
  pub present : is_some (cursor_row w source) ≡ true
  pub same : blocks w ≡ bs

-- A throw rolls everything back, so that nothing need hold after it.
abbrev pub Anything : Failure → Database → Type 0
Anything e w = Unit {0}

pub Triple-execute :
    {P Q : Database → Type 0} (refused : Database → Bool) (change : Database → Database)
    → ((w : Database) → refused w ≡ false → P w → Q (change w))
    → Triple P (execute refused change) (λ u. Q) Anything
unfolding execute Post
Triple-execute {P} {Q} refused change h = record {
  at = λ w p.
      if_cases (Post (λ u. Q) Anything) (refused w) (err unexpected, w) (ok tt, change w) (λ e. tt)
        (λ e. h w e p);
}

Holds-ensured : (db : Database) (source : String) → Holds db source (blocks db) (ensured source db)
Holds-ensured db source = elim (Option-cases (cursor_row db source)) [
  | inl e ↦ rw e (record {
    rows = λ k. row_initial db.sync_cursors source k;
    present =
        rw (find-append (has_source source) db.sync_cursors (initial_row source), e)
          (ground (arith, eq_refl source));
    same = refl;
  })
  | inr (row, e) ↦ rw e (record { rows = λ k. refl; present = ground (arith, e); same = refl })
]

cursor_from_row_eq :
    (w : Database) (row : SyncCursorRow) (c : ProjectionCursor)
    → cursor_from_row w row ≡ ok c
    → c ≡ record {
      source = row.source;
      last_processed_block = row.last_processed_block;
      last_processed_block_id =
          checkpoint_id? (current_checkpoint w row.source row.last_processed_block);
      last_irreversible_block = row.last_irreversible_block;
    }
unfolding cursor_from_row parse_database_integer
cursor_from_row_eq w row c h = ground (arith, h)

pub Triple-query :
    {A : Type 0} {P : Database → Type 0} {Q : A → Database → Type 0}
    (answer : Database → Result Failure A)
    → ((w : Database) (a : A) → answer w ≡ ok a → P w → Q a w)
    → Triple P (query answer) Q Anything
unfolding query
Triple-query {Q = Q} answer h = record {
  at = λ w p. Post-cases Q Anything (answer w) w (λ a e. h w a e p) (λ e h. tt);
}

pub locked_cursor_eq :
    (w : Database) (source : String) (c : ProjectionCursor)
    → locked_cursor w (cursor_row w source) ≡ ok c
    → c ≡ shown_cursor w source
locked_cursor_eq w source c h = elim (Option-cases (cursor_row w source)) [
  | inl e ↦ absurd (ground (arith, e, h))
  | inr (row, e) ↦
      let same : row.source ≡ source = ground (arith, e, row_of_source w source) in
      ground (arith, h, e, same, cursor_from_row_eq w row c)
]

shown_cursor_eq :
    (db w : Database) (source : String)
    → row_of w source ≡ row_of db source
    → blocks w ≡ blocks db
    → shown_cursor w source ≡ shown_cursor db source
unfolding current_checkpoint
shown_cursor_eq db w source hr hb = λ i. record {
  source = source;
  last_processed_block = (hr i).last_processed_block;
  last_processed_block_id =
      checkpoint_id? (find (is_current_at source (hr i).last_processed_block) (hb i));
  last_irreversible_block = (hr i).last_irreversible_block;
}

-- The cursor that a transaction locks is the one shown before it.
pub Triple-lock :
    (db : Database) (source : String)
    → Triple
        (λ w. w ≡ db)
        (lock_cursor source)
        (λ c w. Holds db source (blocks db) w × (c ≡ shown_cursor db source))
        Anything
unfolding lock_cursor
Triple-lock db source =
    Triple-bind _ _
      (Triple-execute {Q = Holds db source (blocks db)} always (ensured source) λ w e p.
        subst (λ x. Holds db source (blocks db) (ensured source x)) (sym p)
          (Holds-ensured db source))
      λ u. Triple-query _ λ w c e p.
        (p, locked_cursor_eq w source c e ∙ shown_cursor_eq db w source (p.rows source) p.same)

-- An update of the cursor of a source.
pub row_of-update :
    (db w : Database) (source : String) (bs : List BlockCheckpoint)
    (change : SyncCursorRow → SyncCursorRow)
    → ((r : SyncCursorRow) → (change r).source ≡ r.source)
    → Holds db source bs w
    → (k : String)
    → or_initial k (find (has_source k) (replace_where w.sync_cursors (has_source source) change))
      ≡ (if str_eq source k then change (row_of db source) else row_of db k)
row_of-update db w source bs change h p k =
    rw (row_update w.sync_cursors source k change h) (elim (Option-cases (cursor_row w source)) [
      | inl e ↦ absurd (ground (arith, p.present, e))
      | inr (row, e) ↦ ground (arith, e, p.rows k, p.rows source)
    ])
