-- ===== src/Projector/Hafah/Tests.antt =====
-- A server in the state of workers/haf-projector/test/hafah-http-source.test.ts: tests, and the
-- witnesses of the theorems on the HAfAH source.
use hive_chameleon.Prelude.{
  ℕ, String, ◌≤◌, ◌≡◌, refl, true, false, Option, none, some, List, [], ◌∷◌, str_eq, ◌==◌, is_some,
  if◌then◌else◌, map_get, map_set,
}
use hive_chameleon.Exec.{ok, err}
use hive_chameleon.Gateway.Json.{Json, null, str}
use hive_chameleon.Projector.Model.{
  HafBlock, HafIrreversibleBlock, HafOperation, projector_error, source_unavailable,
  invalid_source_response,
}
use hive_chameleon.Projector.Sync.{Groups, group_operations_by_block}
use hive_chameleon.Projector.Hafah.Grouping.{
  operations_of_block, group_operations_by_block-get_operations,
}
use hive_chameleon.Projector.Hafah.{
  HafahRequest, operations_page, FetchAnswer, responded, rejected, HafahOperation, OperationsPage,
  HafahServer, request_json, is_block_hash, block_id_matches_number, assert_block_number,
  normalize_hive_timestamp, get_head_block_number, get_last_irreversible_block, get_block,
}
use hive_chameleon.Projector.Hafah.Blocks.{get_last_irreversible_block-get_block, IsAnchored}
use hive_chameleon.Projector.Hafah.Pages.{
  is_uint64, valid_page, page_key, is_visited, next_page, add_operation, add_item, add_items,
  read_page, read_pages, comes_later, place, sorted_operations, bound, get_operations,
}
use hive_chameleon.Projector.Hafah.Pages.Termination.{get_operations-bound}
use hive_chameleon.Projector.Hafah.Pages.Fetched.{IsOperations, get_operations-IsOperations}

abbrev block_id : String
block_id = "0000007baaaaaaaaaaaaaaaaaaaaaaaaaaaaaaaa"

abbrev previous_id : String
previous_id = "0000007abbbbbbbbbbbbbbbbbbbbbbbbbbbbbbbb"

abbrev signed_by : String
signed_by = "cccccccccccccccccccccccccccccccccccccccc"

abbrev noon : String
noon = "2026-07-23T12:00:00"

abbrev item : String → ℕ → ℕ → HafahOperation
item id number index = record {
  op_type = "custom_json_operation";
  op_value = null;
  block = number;
  trx_id = some signed_by;
  op_pos = index;
  timestamp = noon;
  virtual_op = false;
  operation_id = id;
}

abbrev fetched : String → ℕ → ℕ → HafOperation
fetched id number index = record {
  source_operation_id = id;
  transaction_id = some signed_by;
  operation_index = index;
  is_virtual = false;
  block_number = number;
  timestamp = "2026-07-23T12:00:00Z";
  operation_type = "custom_json_operation";
  value = null;
}

abbrev first_page : OperationsPage
first_page = record {
  next_block_range_begin = some 124;
  next_operation_begin = some 9;
  ops = item "8" 124 0 ∷ item "7" 123 4 ∷ [];
}

abbrev last_page : OperationsPage
last_page = record {
  next_block_range_begin = none;
  next_operation_begin = none;
  ops = item "8" 124 0 ∷ item "9" 123 2 ∷ [];
}

abbrev looping_page : OperationsPage
looping_page = record { next_block_range_begin = some 124; next_operation_begin = some 9; ops = [] }

-- The second page of a call at the tick 1 names itself as the next one.
abbrev answer : ℕ → HafahRequest → FetchAnswer
answer tick (operations_page page_from to_block none) = responded true (some (str "first"))
answer tick (operations_page page_from to_block (some id)) =
    responded true (some (str (if tick == 0 then "last" else "looping")))
answer tick request = if tick == 2 then rejected else responded true (some null)

abbrev page_of : Json → Option OperationsPage
page_of (str name) = some (
    if str_eq name "first"
    then first_page
    else if str_eq name "last"
    then last_page
    else looping_page)
page_of _ = none

abbrev server : HafahServer
server = record {
  fetch = λ tick n request. answer tick request;
  read_head = λ value. some 124;
  read_properties = λ value. some 123;
  read_rpc_block = λ value. some block_id;
  read_global_state = λ value.
      some (record { block_num = 123; hash = block_id; prev = previous_id; created_at = noon });
  read_operations_page = page_of;
  parse_url = λ text. none;
  to_iso_string = λ text. some text;
  stringify = λ o. o.source_operation_id;
}

abbrev the_block : HafBlock
the_block = record {
  number = 123;
  id = block_id;
  previous_id = previous_id;
  timestamp = "2026-07-23T12:00:00Z";
}

abbrev the_irreversible : HafIrreversibleBlock
the_irreversible = record { number = 123; id = some block_id }

block_123 : get_block server 0 123 ≡ ok the_block
unfolding get_block assert_block_number request_json is_block_hash block_id_matches_number
    normalize_hive_timestamp
block_123 = refl

irreversible_123 : get_last_irreversible_block server 0 ≡ ok the_irreversible
unfolding get_last_irreversible_block request_json is_block_hash block_id_matches_number
irreversible_123 = refl

-- The block that the server has is not the one asked for.
block_122 : get_block server 0 122 ≡ err (projector_error invalid_source_response)
unfolding get_block assert_block_number request_json is_block_hash block_id_matches_number
    normalize_hive_timestamp
block_122 = refl

unreachable : get_head_block_number server 2 ≡ err (projector_error source_unavailable)
unfolding get_head_block_number request_json
unreachable = refl

-- By block and index, and the operation that both pages have once.
abbrev two_blocks : List HafOperation
two_blocks = fetched "9" 123 2 ∷ fetched "7" 123 4 ∷ fetched "8" 124 0 ∷ []

operations_123 : get_operations server 3 0 123 124 ≡ some (ok two_blocks)
unfolding get_operations assert_block_number read_pages page_key is_visited read_page valid_page
    request_json is_uint64 is_block_hash next_page add_items add_item add_operation map_get map_set
    normalize_hive_timestamp sorted_operations place comes_later
operations_123 = refl

looping : get_operations server 9 1 123 124 ≡ some (err (projector_error invalid_source_response))
unfolding get_operations assert_block_number read_pages page_key is_visited read_page valid_page
    request_json is_uint64 is_block_hash next_page add_items add_item add_operation map_get map_set
    normalize_hive_timestamp sorted_operations place comes_later
looping = refl

get_last_irreversible_block-get_block_example :
    (the_irreversible.number ≡ 123) × IsAnchored 123 the_block
get_last_irreversible_block-get_block_example =
    get_last_irreversible_block-get_block server server 0 0 123 the_irreversible the_block
      irreversible_123 block_123 refl

get_operations-bound_example : is_some (get_operations server (bound 123 124) 1 123 124) ≡ true
get_operations-bound_example = get_operations-bound server 1 123 124

get_operations-IsOperations_example : (123 ≤ 124) × IsOperations 123 124 two_blocks
get_operations-IsOperations_example =
    get_operations-IsOperations server 3 0 123 124 two_blocks operations_123

group_operations_by_block-get_operations_example :
    (groups : Groups) × (group_operations_by_block two_blocks ≡ ok groups)
    × ((n : ℕ) → groups n ≡ operations_of_block n two_blocks)
group_operations_by_block-get_operations_example =
    group_operations_by_block-get_operations server 3 0 123 124 two_blocks operations_123
