-- ===== src/Projector/Hafah/Pages.antt =====
-- `getOperations` of workers/haf-projector/src/source/hafah-http-source.ts: the pages of a range,
-- until the server names no next one. The loop runs on fuel; `bound` is enough of it.
pub mod Termination
pub mod Order
pub mod Fetched
use hive_chameleon.Prelude.{
  ℕ, zero, suc, String, ◌+◌, ◌-◌, ◌*◌, ◌^◌, Bool, true, false, not, ◌&&◌, ◌||◌, Option, none, some,
  List, [], ◌∷◌, ltb, leb, ◌==◌, str_eq, all, any, length, if◌then◌else◌, map_get, map_set, map,
}
use hive_chameleon.Exec.{Result, ok, err, ◌>>=?◌}
use hive_chameleon.Gateway.Protocol.Text.{codes, is_digit, is_hex}
use hive_chameleon.Projector.Model.{HafOperation, Failure}
use hive_chameleon.Projector.Sync.{HafSource}
use hive_chameleon.Projector.Hafah.{
  HafahServer, HafahOperation, OperationsPage, operations_page, request_json, checked, invalid,
  assert_block_number, normalize_hive_timestamp, zero_transaction_id, is_block_hash,
  get_head_block_number, get_last_irreversible_block, get_block,
}

-- 18446744073709551616
abbrev pub uint64_limit : ℕ
uint64_limit = 2 ^ 64

-- `uint64DecimalSchema` on the text of an operation id: `/^(0|[1-9][0-9]{0,19})$/`, and its number.
abbrev pub decimal_value : ℕ → List ℕ → ℕ
decimal_value n [] = n
decimal_value n (c ∷ cs) = decimal_value (n * 10 + (c - b'0')) cs

abbrev pub canonical_decimal : List ℕ → Bool
canonical_decimal [] = false
canonical_decimal (c ∷ cs) =
    if c == b'0' then length cs == 0 else is_digit c && (leb (length cs) 19 && all is_digit cs)

unfoldable pub is_uint64 : String → Bool
is_uint64 text = canonical_decimal (codes text) && ltb (decimal_value 0 (codes text)) uint64_limit

-- `item.trx_id != null && item.trx_id !== ZERO_TRANSACTION_ID`, with the id.
abbrev pub transaction_id_of : Option String → Option String
transaction_id_of none = none
transaction_id_of (some id) = if str_eq id zero_transaction_id then none else some id

-- What `hafahOperationSchema` asks of the texts.
abbrev pub valid_transaction : Option String → Bool
valid_transaction none = true
valid_transaction (some id) = is_block_hash id

abbrev pub valid_item : HafahOperation → Bool
valid_item item =
    not (str_eq item.op_type "")
    && (valid_transaction item.trx_id
        && (not (str_eq item.timestamp "") && is_uint64 item.operation_id))

abbrev pub valid_begin : Option ℕ → Bool
valid_begin none = true
valid_begin (some id) = ltb id uint64_limit

unfoldable pub valid_page : OperationsPage → Bool
valid_page page = valid_begin page.next_operation_begin && all valid_item page.ops

-- `pageKey`: the text names the block and the operation, if any; here they are paired to a number.
unfoldable pub page_key : ℕ → Option ℕ → ℕ
page_key page_from none = page_from * (uint64_limit + 1)
page_key page_from (some id) = page_from * (uint64_limit + 1) + (id + 1)

unfoldable pub is_visited : ℕ → List ℕ → Bool
is_visited key [] = false
is_visited key (k ∷ keys) = k == key || is_visited key keys

-- The page to read next, `none` where the loop ends.
abbrev next_of : ℕ → Option ℕ → Option ℕ → Option (ℕ × ℕ)
next_of to_block (some block) (some id) =
    if block == 0 || (id == 0 || ltb to_block block) then none else some (block, id)
next_of to_block _ _ = none

unfoldable pub next_page : ℕ → OperationsPage → Option (ℕ × ℕ)
next_page to_block page = next_of to_block page.next_block_range_begin page.next_operation_begin

abbrev pub Operations : Type 0
Operations = List (String × HafOperation)

abbrev pub is_missing : Option String → Bool
is_missing none = true
is_missing (some id) = false

-- What the loop does after a page: `none` where the fuel is out.
abbrev pub continue_with :
    (ℕ → ℕ → Operations → Option (Result Failure Operations))
    → Result Failure (Operations × Option (ℕ × ℕ))
    → Option (Result Failure Operations)
continue_with loop (err e) = some (err e)
continue_with loop (ok (operations, none)) = some (ok operations)
continue_with loop (ok (operations, some (block, id))) = loop block id operations

module _ (server : HafahServer) (from_block to_block : ℕ) where
  abbrev pub normalized : HafahOperation → String → HafOperation
  normalized item timestamp = record {
    source_operation_id = item.operation_id;
    transaction_id = transaction_id_of item.trx_id;
    operation_index = item.op_pos;
    is_virtual = item.virtual_op;
    block_number = item.block;
    timestamp = timestamp;
    operation_type = item.op_type;
    value = item.op_value;
  }

  -- `JSON.stringify(previous) !== JSON.stringify(normalized)`.
  abbrev pub differs : Option HafOperation → HafOperation → Bool
  differs none operation = false
  differs (some previous) operation =
      not (str_eq (server.stringify previous) (server.stringify operation))

  unfoldable pub add_operation : Operations → HafOperation → Result Failure Operations
  add_operation operations operation =
      if differs (map_get operations operation.source_operation_id) operation
      then invalid
      else ok (map_set operations operation.source_operation_id operation)

  -- One round of the loop over the items of a page.
  unfoldable pub add_item : Operations → HafahOperation → Result Failure Operations
  add_item operations item =
      if ltb item.block from_block || ltb to_block item.block
      then invalid
      else if not item.virtual_op && is_missing (transaction_id_of item.trx_id)
      then invalid
      else (normalize_hive_timestamp server item.timestamp >>=? λ timestamp.
          add_operation operations (normalized item timestamp))

  unfoldable pub add_items : Operations → List HafahOperation → Result Failure Operations
  add_items operations [] = ok operations
  add_items operations (item ∷ items) = add_item operations item >>=? λ more. add_items more items

  abbrev checked_page : OperationsPage → Result Failure OperationsPage
  checked_page page = if valid_page page then ok page else invalid

  unfoldable pub read_page : ℕ → ℕ → ℕ → Option ℕ → Result Failure OperationsPage
  read_page tick request page_from operation_begin =
      request_json (server.fetch tick request (operations_page page_from to_block operation_begin))
      >>=? λ raw. checked (server.read_operations_page raw) >>=? checked_page

  -- The page with the operations after it.
  abbrev pub read_into :
      ℕ → ℕ → ℕ → Option ℕ → Operations → Result Failure (Operations × Option (ℕ × ℕ))
  read_into tick request page_from operation_begin operations =
      read_page tick request page_from operation_begin >>=? λ page.
      add_items operations page.ops >>=? λ more. ok (more, next_page to_block page)

  -- The `for (;;)` loop.
  unfoldable pub read_pages :
      ℕ → ℕ → ℕ → List ℕ → ℕ → Option ℕ → Operations → Option (Result Failure Operations)
  read_pages zero tick request visited page_from operation_begin operations = none
  read_pages (suc fuel) tick request visited page_from operation_begin operations =
      elim (is_visited (page_key page_from operation_begin) visited) [
        | true ↦ some invalid
        | false ↦
            continue_with
              (λ block id more.
                read_pages fuel tick (suc request) (page_key page_from operation_begin ∷ visited)
                  block (some id) more)
              (read_into tick request page_from operation_begin operations)
      ]

-- `left.blockNumber - right.blockNumber || left.operationIndex - right.operationIndex` is positive.
unfoldable pub comes_later : HafOperation → HafOperation → Bool
comes_later left right =
    ltb right.block_number left.block_number
    || (left.block_number == right.block_number && ltb right.operation_index left.operation_index)

-- `Array.prototype.sort` is stable.
unfoldable pub place : HafOperation → List HafOperation → List HafOperation
place o [] = o ∷ []
place o (p ∷ ps) = let rest = place o ps in if comes_later o p then p ∷ rest else o ∷ p ∷ ps

unfoldable pub sorted_operations : List HafOperation → List HafOperation
sorted_operations [] = []
sorted_operations (o ∷ os) = place o (sorted_operations os)

abbrev pub values_of : Operations → List HafOperation
values_of [] = []
values_of ((key, o) ∷ rest) = o ∷ values_of rest

abbrev pub finish : Option (Result Failure Operations) → Option (Result Failure (List HafOperation))
finish none = none
finish (some (err e)) = some (err e)
finish (some (ok operations)) = some (ok (sorted_operations (values_of operations)))

-- The number of page keys up to a block.
abbrev pub bound : ℕ → ℕ → ℕ
bound from_block to_block = suc (suc (from_block + to_block) * (uint64_limit + 1))

abbrev pub checked_range : ℕ → ℕ → Result Failure (Unit {0})
checked_range from_block to_block = assert_block_number from_block >>=? λ _.
    assert_block_number to_block >>=? λ _. if ltb to_block from_block then invalid else ok tt

abbrev pub run_checked :
    Option (Result Failure (List HafOperation))
    → Result Failure (Unit {0})
    → Option (Result Failure (List HafOperation))
run_checked rest (err e) = some (err e)
run_checked rest (ok u) = rest

-- `getOperations`, on fuel.
unfoldable pub get_operations :
    HafahServer → ℕ → ℕ → ℕ → ℕ → Option (Result Failure (List HafOperation))
get_operations server fuel tick from_block to_block =
    run_checked (finish (read_pages server from_block to_block fuel tick 0 [] from_block none []))
      (checked_range from_block to_block)
