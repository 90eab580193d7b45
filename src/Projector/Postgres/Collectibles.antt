-- ===== src/Projector/Postgres/Collectibles.antt =====
-- What an irreversible collectible event writes: `materializeCollectibleIssue` and
-- `materializeCollectibleRevocation` of
-- workers/haf-projector/src/store/postgres-projection-store.ts.
use hive_chameleon.Prelude.{
  String, Bool, true, false, not, ◌&&◌, ◌||◌, Option, none, some, [], ◌∷◌, ◌++◌, str_eq, any, find,
  if◌then◌else◌,
}
use hive_chameleon.Gateway.Protocol.Event.{CollectibleIssued, CollectibleRevoked}
use hive_chameleon.Projector.InMemory.{replace_where}
use hive_chameleon.Projector.Postgres.{
  Database, Server, OperationRow, CollectibleEventRow, CollectibleEventType, CollectibleInstanceRow,
  CollectibleState, finalized, revoked_state, issued, revoked,
}

module _ (server : Server) where
  abbrev pub has_event : String → CollectibleEventRow → Bool
  has_event id e = str_eq e.event_id id

  -- The event goes in unless its id is there; the instance unless its id is there.
  abbrev pub with_instance : CollectibleEventRow → CollectibleInstanceRow → Database → Database
  with_instance event instance_row db =
      if any (has_event event.event_id) db.collectible_events then db else record db {
        collectible_events = db.collectible_events ++ event ∷ [];
        collectible_instances =
            if any (λ i. str_eq i.id instance_row.id) db.collectible_instances
            then db.collectible_instances
            else db.collectible_instances ++ instance_row ∷ [];
      }

  abbrev issued_row :
      OperationRow → CollectibleIssued → String → Option String → CollectibleEventRow
  issued_row o c definition payment = record {
    event_id = c.event_id;
    operation_id = o.id;
    event_type = issued;
    collectible_id = c.collectible_id;
    collectible_definition_id = definition;
    owner_hive_username = c.owner;
    issuer_hive_username = c.issuer;
    metadata_uri = c.metadata_uri;
    metadata_sha256 = c.metadata_sha256;
    issuance_reason = c.reason;
    payment_transaction_id = payment;
    occurred_at = c.occurred_at;
  }

  abbrev instance_of :
      OperationRow
      → CollectibleIssued
      → String
      → String
      → Option String
      → String
      → String
      → CollectibleInstanceRow
  instance_of o c definition player payment transaction at_time = record {
    id = c.collectible_id;
    collectible_definition_id = definition;
    owner_player_id = player;
    issuer_hive_account = c.issuer;
    state = finalized;
    issued_event_id = c.event_id;
    issued_hive_transaction_id = transaction;
    issued_hive_block_number = o.evidence.block_number;
    irreversible_at = at_time;
    payment_transaction_id = payment;
    revoked_event_id = none;
    revoked_at = none;
  }

  -- The payment of a collectible: none is named, or the one named is known.
  abbrev payment_found : Option String → Option (Option String)
  payment_found none = some none
  payment_found (some external) = elim (server.payment_of external) [
    | none ↦ none
    | some payment ↦ some (some payment)
  ]

  abbrev issued_by :
      OperationRow
      → CollectibleIssued
      → String
      → Option String
      → Option String
      → Option String
      → Option (Option String)
      → Database
      → Database
  issued_by o c at_time (some transaction) (some definition) (some player) (some payment) db =
      with_instance (issued_row o c definition payment)
        (instance_of o c definition player payment transaction at_time) db
  issued_by o c at_time _ _ _ _ db = db

  -- `materializeCollectibleIssue`.
  unfoldable pub materialize_issue : OperationRow → CollectibleIssued → String → Database → Database
  materialize_issue o c at_time db =
      issued_by o c at_time o.evidence.transaction_id (server.definition_of c)
        (server.player_of c.owner) (payment_found c.payment_tx_id) db

  abbrev is_issued : CollectibleEventType → Bool
  is_issued issued = true
  is_issued revoked = false

  abbrev pub is_final : CollectibleState → Bool
  is_final finalized = true
  is_final revoked_state = false

  -- The instance that a revocation ends.
  abbrev pub is_revocable : CollectibleRevoked → CollectibleInstanceRow → Bool
  is_revocable r i =
      str_eq i.id r.collectible_id
      && (str_eq i.issued_event_id r.issued_event_id && is_final i.state)

  abbrev pub is_issue_of : CollectibleRevoked → CollectibleEventRow → Bool
  is_issue_of r e =
      has_event r.issued_event_id e
      && (is_issued e.event_type && str_eq e.collectible_id r.collectible_id)

  abbrev revoked_row : OperationRow → CollectibleRevoked → CollectibleEventRow → CollectibleEventRow
  revoked_row o r e = record e {
    event_id = r.event_id;
    operation_id = o.id;
    event_type = revoked;
    issuer_hive_username = o.evidence.primary_account;
    occurred_at = r.occurred_at;
  }

  abbrev revoked_by :
      OperationRow → CollectibleRevoked → Option CollectibleEventRow → Database → Database
  revoked_by o r none db = db
  revoked_by o r (some e) db =
      if not (any (is_revocable r) db.collectible_instances)
        || any (has_event r.event_id) db.collectible_events
      then db
      else record db {
        collectible_events = db.collectible_events ++ revoked_row o r e ∷ [];
        collectible_instances = replace_where db.collectible_instances (is_revocable r) (λ i.
            record i {
              state = revoked_state;
              revoked_event_id = some r.event_id;
              revoked_at = some r.occurred_at;
            });
      }

  -- `materializeCollectibleRevocation`.
  unfoldable pub materialize_revocation : OperationRow → CollectibleRevoked → Database → Database
  materialize_revocation o r db = revoked_by o r (find (is_issue_of r) db.collectible_events) db
