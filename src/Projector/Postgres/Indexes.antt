-- ===== src/Projector/Postgres/Indexes.antt =====
-- The primary keys and unique indexes of the tables that irreversible events fill:
-- infra/postgres/migrations. A statement after which two rows of a table would share a key is
-- refused; the keys that its ON CONFLICT clause names are tested by the statement itself.
use hive_chameleon.Prelude.{
  Bool, false, ◌&&◌, ◌||◌, List, [], ◌∷◌, ◌==◌, str_eq, any, is_some, same_text?,
}
use hive_chameleon.Exec.{Exec}
use hive_chameleon.Projector.Model.{Failure}
use hive_chameleon.Projector.Postgres.{
  Database, MatchResultRow, MatchResultChangeRow, CollectibleEventRow, CollectibleInstanceRow,
}
use hive_chameleon.Projector.Postgres.Statements.{execute}

abbrev repeats {ℓ} : {A : Type ℓ} → (A → A → Bool) → List A → Bool
repeats same [] = false
repeats same (x ∷ xs) = any (same x) xs || repeats same xs

-- The key, `round_id`, and `uq_match_result_event_position`.
abbrev results_conflict : MatchResultRow → MatchResultRow → Bool
results_conflict a b =
    str_eq a.id b.id
    || (str_eq a.result.round_id b.result.round_id
        || (str_eq a.initial_event_uuid b.initial_event_uuid
            && a.result_position == b.result_position))

-- The key, and `uq_match_result_change_linear`.
abbrev changes_conflict : MatchResultChangeRow → MatchResultChangeRow → Bool
changes_conflict a b =
    str_eq a.event_uuid b.event_uuid
    || (str_eq a.round_id b.round_id && str_eq a.supersedes_event_uuid b.supersedes_event_uuid)

-- The key, and `operation_id`.
abbrev events_conflict : CollectibleEventRow → CollectibleEventRow → Bool
events_conflict a b = str_eq a.event_id b.event_id || str_eq a.operation_id b.operation_id

-- The key, `issued_event_id`, `revoked_event_id` and `payment_transaction_id`.
abbrev instances_conflict : CollectibleInstanceRow → CollectibleInstanceRow → Bool
instances_conflict a b =
    str_eq a.id b.id
    || (str_eq a.issued_event_id b.issued_event_id
        || ((is_some a.revoked_event_id && same_text? a.revoked_event_id b.revoked_event_id)
            || (is_some a.payment_transaction_id
                && same_text? a.payment_transaction_id b.payment_transaction_id)))

unfoldable pub breaks_index : Database → Bool
breaks_index db =
    repeats results_conflict db.match_results
    || (repeats changes_conflict db.match_result_changes
        || (repeats events_conflict db.collectible_events
            || repeats instances_conflict db.collectible_instances))

unfoldable pub execute_unique : (Database → Database) → Exec Database Failure (Unit {0})
execute_unique change = execute (λ db. breaks_index (change db)) change
