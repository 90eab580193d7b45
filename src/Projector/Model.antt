-- ===== src/Projector/Model.antt =====
-- workers/haf-projector/src/model.ts and errors.ts.
-- A nullable or optional field is an `Option`; `unknown` values of the chain are `Json`.
use hive_chameleon.Prelude.{ℕ, String, Bool, Option}
use hive_chameleon.Gateway.Json.{Json}
use hive_chameleon.Gateway.Protocol.Event.{HiveChameleonEvent}

pub data ProjectionState : Type 0 where
  included irreversible reverted : ProjectionState

abbrev pub is_included : ProjectionState → Bool
is_included included = Bool.true
is_included _ = Bool.false

abbrev pub is_reverted : ProjectionState → Bool
is_reverted reverted = Bool.true
is_reverted _ = Bool.false

pub data ValidationState : Type 0 where
  accepted rejected : ValidationState

pub data HafProjectorErrorCode : Type 0 where
  cursor_conflict : HafProjectorErrorCode
  database_unavailable : HafProjectorErrorCode
  invalid_source_response : HafProjectorErrorCode
  irreversible_fork : HafProjectorErrorCode
  reorg_too_deep : HafProjectorErrorCode
  source_divergence : HafProjectorErrorCode
  source_unavailable : HafProjectorErrorCode

-- What a cycle can throw: a `HafProjectorError` with its code, or any other error.
pub data Failure : Type 0 where
  projector_error : HafProjectorErrorCode → Failure
  unexpected : Failure

pub record HafBlock : Type 0 where
  pub number : ℕ
  pub id : String
  pub previous_id : String
  pub timestamp : String

pub record HafIrreversibleBlock : Type 0 where
  pub number : ℕ
  pub id : Option String

pub record ProjectionCursor : Type 0 where
  pub source : String
  pub last_processed_block : ℕ
  pub last_processed_block_id : Option String
  pub last_irreversible_block : ℕ

-- `interface BlockCheckpoint extends HafBlock`.
pub record BlockCheckpoint : Type 0 where
  pub block : HafBlock
  pub open block use *
  pub source : String
  pub state : ProjectionState
  pub included_at : String
  pub irreversible_at : Option String
  pub reverted_at : Option String

pub record HafOperation : Type 0 where
  pub source_operation_id : String
  pub transaction_id : Option String
  pub operation_index : ℕ
  pub is_virtual : Bool
  pub block_number : ℕ
  pub timestamp : String
  pub operation_type : String
  pub value : Json

pub data RequiredAuthority : Type 0 where
  active owner posting : RequiredAuthority

pub record RawOperationEvidence : Type 0 where
  pub source_operation_id : String
  pub transaction_id : Option String
  pub operation_index : ℕ
  pub is_virtual : Bool
  pub block_number : ℕ
  pub block_id : String
  pub block_timestamp : String
  pub operation_type : String
  pub primary_account : String
  pub required_authority : Option RequiredAuthority
  pub application_id : Option String
  pub payload : Json

pub record OperationDecision : Type 0 where
  pub evidence : RawOperationEvidence
  pub validation_state : ValidationState
  pub rejection_reason : Option String
  pub event : Option HiveChameleonEvent

-- `interface StoredOperationDecision extends OperationDecision`.
pub record StoredOperationDecision : Type 0 where
  pub decision : OperationDecision
  pub open decision use *
  pub source : String
  pub state : ProjectionState
  pub irreversible_at : Option String
  pub reverted_at : Option String
