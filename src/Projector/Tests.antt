-- ===== src/Projector/Tests.antt =====
-- The scenarios of workers/haf-projector/src/sync/haf-projector.spec.ts, and the theorems about the
-- projector at concrete inputs.
use hive_chameleon.Prelude.{
  ℕ, String, ◌*◌, min, ◌≤◌, ◌≡◌, refl, sym, ap, ◌∙◌, true, false, Option, none, some, List, [], ◌∷◌,
  arith, ltb, find, ◌==◌, if◌then◌else◌, map_get, map_set,
}
use hive_chameleon.Exec.{Result, ok, err, ◌>>=◌, branch, pure, continue, lift, reads, throw, unless}
use hive_chameleon.Projector.InMemory
use hive_chameleon.Projector.Sync
use hive_chameleon.Projector.Sync.Run
use hive_chameleon.Projector.Model.{
  HafBlock, HafIrreversibleBlock, Failure, projector_error, invalid_source_response,
}
use hive_chameleon.Projector.InMemory.{
  InMemoryProjectionStore, in_memory, cursor_of, initial_cursor,
}
use hive_chameleon.Projector.InMemory.Laws.{in_memory-IsProjectionStore}
use hive_chameleon.Exec.Triple.{Post}
use hive_chameleon.Projector.Sync.Steps.{IsReported}
use hive_chameleon.Projector.Worker.{
  ProjectorWorkerOptions, Round, assert_worker_options, failure_backoff, run,
}
use hive_chameleon.Projector.Worker.Run.{IsLog, cycles_of, run-IsLog, run-IsChained}
use hive_chameleon.Projector.Worker.Backoff.{
  failure_backoff_bounds, failure_backoff_mono, failure_backoff_doubles,
}
use hive_chameleon.Projector.Store.{View, checkpoint_id?}
use hive_chameleon.Projector.Chain.{IsChained, Extends}
use hive_chameleon.Projector.Sync.Report.{run_once-IsChained, run_once_report}
use hive_chameleon.Projector.Sync.{HafSource, World, HafProjectorRunResult}
use hive_chameleon.Projector.Sync.Run.{ForkAwareHafProjector, run_once, report}

abbrev block : ℕ → String → String → HafBlock
block number id previous_id = record {
  number = number;
  id = id;
  previous_id = previous_id;
  timestamp = "2026-07-11T12:06:00.000Z";
}

abbrev chain_a : List HafBlock
chain_a = block 1 "a1" "0" ∷ block 2 "a2" "a1" ∷ block 3 "a3" "a2" ∷ []

abbrev chain_b : List HafBlock
chain_b = block 1 "a1" "0" ∷ block 2 "b2" "a1" ∷ block 3 "b3" "b2" ∷ block 4 "b4" "b3" ∷ []

abbrev answer : Option HafBlock → Result Failure HafBlock
answer none = err (projector_error invalid_source_response)
answer (some b) = ok b

abbrev head_of : List HafBlock → ℕ
head_of [] = 0
head_of (b ∷ []) = b.number
head_of (b ∷ c ∷ bs) = head_of (c ∷ bs)

-- A source that shows `before` until the tick `change`, and `after` from then on.
abbrev fixture : ℕ → List HafBlock → List HafBlock → HafIrreversibleBlock → HafSource
fixture change before after lib =
    let blocks = λ (tick : ℕ). if ltb tick change then before else after in
    record {
      source_name = "fixture";
      get_head_block_number = λ tick. ok (head_of (blocks tick));
      get_last_irreversible_block = λ tick. ok lib;
      get_block = λ tick n. answer (find (λ b. b.number == n) (blocks tick));
      get_operations = λ tick from to. ok [];
    }

abbrev empty_store : InMemoryProjectionStore
empty_store = record { checkpoints = []; operations = []; cursors = [] }

abbrev projector : HafSource → ForkAwareHafProjector InMemoryProjectionStore
projector source = record {
  source = source;
  store = in_memory;
  validate = λ operation b. none;
  options = record { max_blocks_per_run = 50; max_reorg_depth = 200; now = λ tick. "now" };
}

abbrev forking : HafSource
forking = fixture 12 chain_a chain_b (record { number = 1; id = some "a1" })

abbrev start : World InMemoryProjectionStore
start = record { store = empty_store; tick = 0 }

-- The cycle with all that it calls open.
run_fixture :
    HafSource
    → World InMemoryProjectionStore
    → Result Failure HafProjectorRunResult × World InMemoryProjectionStore
unfolding run_once ◌>>=◌ Run.call in_memory InMemory.get_cursor Run.run_from Run.ask branch
    cursor_of map_get Run.verify_current_tip pure Run.continue_cycle Run.apply_through
    Run.apply_range Run.read_block_snapshot Run.read_blocks find continue lift reads throw unless
    map_set InMemory.apply_block InMemory.current_checkpoint InMemory.finalize_through
    InMemory.finalized_store InMemory.get_current_checkpoint InMemory.is_stored
    InMemory.push_decisions InMemory.push_operation InMemory.replace_where InMemory.revert_after
    InMemory.reverted_store InMemory.set_applied_cursor Run.apply_fork Run.apply_loop Run.apply_one
    Run.assert_finality_agreement Run.end_cycle Run.finalize_cycle Run.finalize_to
    Run.reconcile_fork Run.reconcile_from Run.revert_to Run.stamp Run.unanchored Run.verify_against
    Sync.assert_stable_snapshot Sync.group_from Sync.group_operations_by_block Sync.same_block
    Sync.some_differs Sync.validate_block_operations Sync.validate_from
run_fixture source w = run_once (projector source) w

-- The first cycle applies the three blocks of the first chain and finalizes block 1.
first_cycle : (run_fixture forking start).0 ≡ ok (report 3 1 none 3)
unfolding run_fixture
first_cycle = refl

-- Then the chain forks at block 2: the second cycle goes back to block 1.
second_cycle : (run_fixture forking (run_fixture forking start).1).0 ≡ ok (report 0 1 (some 1) 3)
unfolding run_fixture
second_cycle = refl

-- The third cycle applies the replacement branch.
third_cycle :
    (run_fixture forking (run_fixture forking (run_fixture forking start).1).1).0
    ≡ ok (report 3 1 none 4)
unfolding run_fixture
third_cycle = refl

-- A view of a store where nothing is stored is chained.
unstored-IsChained :
    (v : View InMemoryProjectionStore)
    → initial_cursor "fixture" ≡ v.cursor empty_store "fixture"
    → ((n : ℕ) → none ≡ v.checkpoint empty_store "fixture" n)
    → IsChained v "fixture" empty_store
unstored-IsChained v c h =
    let low : (v.cursor empty_store "fixture").last_processed_block ≡ 0 =
      sym (ap (λ x. x.last_processed_block) c) in
    let settled : (v.cursor empty_store "fixture").last_irreversible_block ≡ 0 =
      sym (ap (λ x. x.last_irreversible_block) c) in
    let tip : (v.cursor empty_store "fixture").last_processed_block_id ≡ none =
      sym (ap (λ x. x.last_processed_block_id) c) in
    record {
      settled_le = ground (arith, low, settled);
      tip = tip ∙ ap checkpoint_id? (h _);
      floor = sym (h 0);
      present = λ n a b. ground (arith, low);
      numbered = λ n x a e. ground (arith, e, h n);
      linked = λ n x y a e f. ground (arith, e, h n);
      settled = λ n x a e. ground (arith, e, h n);
      pending = λ n x a b e. ground (arith, e, h n);
    }

empty-IsChained : IsChained in_memory-IsProjectionStore.view "fixture" empty_store
unfolding Post in_memory InMemory.get_cursor InMemory.get_current_checkpoint
    InMemory.current_checkpoint cursor_of map_get find
empty-IsChained =
    unstored-IsChained in_memory-IsProjectionStore.view
      (in_memory-IsProjectionStore.get_cursor_lem "fixture" empty_store).1
      (λ n. (in_memory-IsProjectionStore.get_current_checkpoint_lem "fixture" n empty_store).1)

run_once-IsChained_example :
    IsChained in_memory-IsProjectionStore.view "fixture"
      (run_once (projector forking) start).1.store
    × Extends in_memory-IsProjectionStore.view "fixture" empty_store
        (run_once (projector forking) start).1.store
run_once-IsChained_example =
    run_once-IsChained (projector forking) in_memory-IsProjectionStore start empty-IsChained

ran :
    run_once (projector forking) start
    ≡ (ok (report 3 1 none 3), (run_once (projector forking) start).1)
unfolding run_fixture
ran =
    let same : run_once (projector forking) start ≡ run_fixture forking start = refl in
    let shown : run_fixture forking start
        ≡ (ok (report 3 1 none 3), (run_fixture forking start).1) =
      refl in
    same ∙ (shown ∙ ap (λ x. (ok (report 3 1 none 3), x.1)) (sym same))

run_once_report_example :
    IsReported
      (projector forking)
      in_memory-IsProjectionStore
      empty_store
      (report 3 1 none 3)
      (run_once (projector forking) start).1.store
run_once_report_example =
    run_once_report (projector forking) in_memory-IsProjectionStore start empty-IsChained
      (report 3 1 none 3) (run_once (projector forking) start).1 ran

abbrev options : ProjectorWorkerOptions
options = record {
  poll_interval_ms = 3000;
  initial_failure_backoff_ms = 1000;
  maximum_failure_backoff_ms = 60000;
}

options_valid : assert_worker_options options ≡ true
unfolding assert_worker_options
options_valid = refl

-- Two cycles, and then the signal.
abbrev rounds : List Round
rounds =
    record { aborted_at_head = false; aborted_at_sleep = false }
    ∷ record { aborted_at_head = false; aborted_at_sleep = false }
    ∷ record { aborted_at_head = true; aborted_at_sleep = true }
    ∷ []

run-IsChained_example :
    IsChained in_memory-IsProjectionStore.view "fixture"
      (run (run_once (projector forking)) options rounds start).world.store
    × Extends in_memory-IsProjectionStore.view "fixture" empty_store
        (run (run_once (projector forking)) options rounds start).world.store
run-IsChained_example =
    run-IsChained (projector forking) in_memory-IsProjectionStore options rounds start
      empty-IsChained

run-IsLog_example :
    IsLog options 0
      (cycles_of (run_once (projector forking)) options rounds start)
      (run (run_once (projector forking)) options rounds start).events
run-IsLog_example = run-IsLog (run_once (projector forking)) options rounds start options_valid

failure_backoff_bounds_example :
    (1000 ≤ failure_backoff 7 1000 60000) × (failure_backoff 7 1000 60000 ≤ 60000)
failure_backoff_bounds_example = failure_backoff_bounds options 7 options_valid

failure_backoff_mono_example : failure_backoff 3 1000 60000 ≤ failure_backoff 5 1000 60000
failure_backoff_mono_example = failure_backoff_mono 1000 60000 3 5 (omega arith)

failure_backoff_doubles_example :
    failure_backoff 4 1000 60000 ≡ min 60000 (2 * failure_backoff 3 1000 60000)
failure_backoff_doubles_example = failure_backoff_doubles 1000 60000 3 (omega arith) (omega arith)
