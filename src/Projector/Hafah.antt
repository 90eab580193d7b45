-- ===== src/Projector/Hafah.antt =====
-- workers/haf-projector/src/source/hafah-http-source.ts: `HafahHttpSource`.
-- The server answers the `n`-th request of a call at the tick of the call. What zod reads off the
-- shape of an answer, `URL` and `Date` are parameters. An operation id is a canonical decimal text,
-- and where it is only handed back to the server it is given by its number.
pub mod Blocks
pub mod Pages
pub mod Grouping
pub mod Tests
use hive_chameleon.Prelude.{
  ℕ, zero, suc, String, ◌+◌, ◌-◌, ◌*◌, ◌^◌, Bool, true, false, not, ◌&&◌, ◌||◌, Option, none, some,
  List, [], ◌∷◌, ◌++◌, ltb, leb, ◌==◌, str_eq, all, any, length, take, same_codes, if◌then◌else◌,
  map_get, map_set, map,
}
use Prim.Native.Nat.{◌/◌, ◌%◌}
use Prim.Native.String.{◌++◌ as str_append}
use hive_chameleon.Exec.{Result, ok, err, ◌>>=?◌}
use hive_chameleon.Gateway.Json.{Json}
use hive_chameleon.Gateway.Protocol.Text.{codes, is_digit, is_hex, is_alphanumeric}
use hive_chameleon.Projector.Model.{
  HafBlock, HafIrreversibleBlock, HafOperation, Failure, projector_error, source_unavailable,
  invalid_source_response,
}
use hive_chameleon.Projector.Sync.{HafSource}

pub data HafahRequest : Type 0 where
  head_block properties : HafahRequest
  rpc_block global_state : (block_number : ℕ) → HafahRequest
  operations_page : (page_from to_block : ℕ) → (operation_begin : Option ℕ) → HafahRequest

-- What `fetch` gives: a rejection (the abort of the timeout included), or a response with its
-- `ok` flag and its body, `none` where it is no JSON.
pub data FetchAnswer : Type 0 where
  rejected : FetchAnswer
  responded : (is_ok : Bool) → (body : Option Json) → FetchAnswer

pub record GlobalState : Type 0 where
  pub block_num : ℕ
  pub hash : String
  pub prev : String
  pub created_at : String

pub record HafahOperation : Type 0 where
  pub op_type : String
  pub op_value : Json
  pub block : ℕ
  pub trx_id : Option String
  pub op_pos : ℕ
  pub timestamp : String
  pub virtual_op : Bool
  pub operation_id : String

pub record OperationsPage : Type 0 where
  pub next_block_range_begin : Option ℕ
  pub next_operation_begin : Option ℕ
  pub ops : List HafahOperation

pub record ParsedUrl : Type 0 where
  pub protocol : String
  pub username : String
  pub password : String
  pub search : String
  pub hash : String

pub record HafahServer : Type 0 where
  pub fetch : ℕ → ℕ → HafahRequest → FetchAnswer
  pub read_head : Json → Option ℕ
  pub read_properties : Json → Option ℕ
  pub read_rpc_block : Json → Option String
  pub read_global_state : Json → Option GlobalState
  pub read_operations_page : Json → Option OperationsPage
  pub parse_url : String → Option ParsedUrl
  -- `new Date(text)` and `toISOString`; `none` where the date is invalid.
  pub to_iso_string : String → Option String
  -- `JSON.stringify` of a normalized operation.
  pub stringify : HafOperation → String

pub record HafahHttpSourceConfig : Type 0 where
  pub source_name : String
  pub hafah_api_url : String
  pub hive_rpc_url : String
  pub operation_type_ids : List ℕ
  pub page_size : Option ℕ
  pub timeout_ms : Option ℕ
  pub allow_http_for_tests : Bool

abbrev pub invalid : {A : Type 0} → Result Failure A
invalid = err (projector_error invalid_source_response)

-- `requestJson`.
unfoldable pub request_json : FetchAnswer → Result Failure Json
request_json (responded true (some body)) = ok body
request_json _ = err (projector_error source_unavailable)

-- `/^[0-9a-f]{40}$/`
unfoldable pub is_block_hash : String → Bool
is_block_hash text = length (codes text) == 40 && all is_hex (codes text)

-- The digits of `blockNumber.toString(16).padStart(8, '0')`, for a number of 32 bits.
abbrev pub hex_code : ℕ → ℕ
hex_code d = if ltb d 10 then b'0' + d else b'a' + (d - 10)

abbrev pub hex_digits : ℕ → ℕ → List ℕ → List ℕ
hex_digits zero n rest = rest
hex_digits (suc places) n rest = hex_digits places (n / 16) (hex_code (n % 16) ∷ rest)

-- `blockIdMatchesNumber`.
unfoldable pub block_id_matches_number : String → ℕ → Bool
block_id_matches_number block_id block_number =
    ltb block_number (2 ^ 32) && same_codes (take 8 (codes block_id)) (hex_digits 8 block_number [])

abbrev pub max_safe_integer : ℕ
max_safe_integer = 2 ^ 53 - 1

-- `assertBlockNumber`.
unfoldable pub assert_block_number : ℕ → Result Failure (Unit {0})
assert_block_number value = if ltb max_safe_integer value then invalid else ok tt

-- `/(?:Z|[+-][0-9]{2}:[0-9]{2})$/`: what remains of the text may be such a zone, or its end is.
abbrev is_zone : List ℕ → Bool
is_zone (c ∷ []) = c == b'Z'
is_zone (s ∷ a ∷ b ∷ c ∷ d ∷ e ∷ []) =
    (s == b'+' || s == b'-')
    && (is_digit a && (is_digit b && (c == b':' && (is_digit d && is_digit e))))
is_zone _ = false

abbrev ends_with_zone : List ℕ → Bool
ends_with_zone [] = false
ends_with_zone (c ∷ cs) = is_zone (c ∷ cs) || ends_with_zone cs

-- `/^[a-z0-9][a-z0-9._-]{0,63}$/`
abbrev is_name_rest : ℕ → Bool
is_name_rest c = is_alphanumeric c || (c == b'.' || (c == b'_' || c == b'-'))

abbrev is_source_name : List ℕ → Bool
is_source_name [] = false
is_source_name (c ∷ cs) = is_alphanumeric c && (leb (length cs) 63 && all is_name_rest cs)

abbrev or_default : ℕ → Option ℕ → ℕ
or_default n none = n
or_default n (some m) = m

abbrev zero_transaction_id : String
zero_transaction_id = "0000000000000000000000000000000000000000"

abbrev checked : {A : Type 0} → Option A → Result Failure A
checked none = invalid
checked (some a) = ok a

module _ (server : HafahServer) where
  abbrev url_allowed : Bool → Option ParsedUrl → Bool
  url_allowed allow_http none = false
  url_allowed allow_http (some url) =
      (str_eq url.protocol "https:" || (allow_http && str_eq url.protocol "http:"))
      && (str_eq url.username ""
          && (str_eq url.password "" && (str_eq url.search "" && str_eq url.hash "")))

  -- `validateUrl`: `false` where it throws.
  unfoldable pub validate_url : String → Bool → Bool
  validate_url value allow_http = url_allowed allow_http (server.parse_url value)

  -- The constructor: `false` where it throws, in a process that is in production or not.
  unfoldable pub is_source_configured : HafahHttpSourceConfig → Bool → Bool
  is_source_configured config in_production =
      not (config.allow_http_for_tests && in_production)
      && (validate_url config.hafah_api_url config.allow_http_for_tests
          && (validate_url config.hive_rpc_url config.allow_http_for_tests
              && (is_source_name (codes config.source_name)
                  && (not (length config.operation_type_ids == 0)
                      && (leb 1 (or_default 1000 config.page_size)
                          && (leb (or_default 1000 config.page_size) 10000
                              && (leb 100 (or_default 5000 config.timeout_ms)
                                  && leb (or_default 5000 config.timeout_ms) 120000)))))))

  -- `normalizeHiveTimestamp`.
  unfoldable pub normalize_hive_timestamp : String → Result Failure String
  normalize_hive_timestamp value =
      checked (
        server.to_iso_string (if ends_with_zone (codes value) then value else str_append value "Z"))

  unfoldable pub get_head_block_number : ℕ → Result Failure ℕ
  get_head_block_number tick =
      request_json (server.fetch tick 0 head_block) >>=? λ value. checked (server.read_head value)

  abbrev pub irreversible_id : ℕ → String → Result Failure HafIrreversibleBlock
  irreversible_id number id =
      if is_block_hash id && block_id_matches_number id number
      then ok (record { number = number; id = some id })
      else invalid

  -- What follows the properties: the block at the last irreversible height.
  abbrev pub after_properties : ℕ → ℕ → Result Failure HafIrreversibleBlock
  after_properties tick number =
      if number == 0
      then ok (record { number = 0; id = none })
      else (request_json (server.fetch tick 1 (rpc_block number)) >>=? λ block.
          checked (server.read_rpc_block block) >>=? irreversible_id number)

  unfoldable pub get_last_irreversible_block : ℕ → Result Failure HafIrreversibleBlock
  get_last_irreversible_block tick = request_json (server.fetch tick 0 properties) >>=? λ value.
      checked (server.read_properties value) >>=? after_properties tick

  abbrev pub block_of : ℕ → GlobalState → Result Failure HafBlock
  block_of block_number state =
      if (is_block_hash state.hash && is_block_hash state.prev)
        && (state.block_num == block_number && block_id_matches_number state.hash block_number)
      then (normalize_hive_timestamp state.created_at >>=? λ timestamp. ok (record {
        number = block_number;
        id = state.hash;
        previous_id = state.prev;
        timestamp = timestamp;
      }))
      else invalid

  unfoldable pub get_block : ℕ → ℕ → Result Failure HafBlock
  get_block tick block_number = assert_block_number block_number >>=? λ _.
      request_json (server.fetch tick 0 (global_state block_number)) >>=? λ value.
      checked (server.read_global_state value) >>=? block_of block_number
