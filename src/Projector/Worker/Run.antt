-- ===== src/Projector/Worker/Run.antt =====
-- The loop of the projector worker over cycles of the projector.
use hive_chameleon.Prelude.{
  ap, ℕ, ◌+◌, ◌≤◌, ◌≡◌, refl, Bool, true, false, List, [], ◌∷◌, arith, Bool-cases, inl, inr,
}
use hive_chameleon.Exec.{Result, ok, err, Exec}
use hive_chameleon.Projector.Model.{Failure}
use hive_chameleon.Projector.Store.{IsProjectionStore}
use hive_chameleon.Projector.Chain.{IsChained, Extends, Extends-refl, Extends-trans}
use hive_chameleon.Projector.Sync.{World, HafProjectorRunResult}
use hive_chameleon.Projector.Sync.Run.{ForkAwareHafProjector, name, run_once}
use hive_chameleon.Projector.Sync.Report.{run_once-IsChained}
use hive_chameleon.Projector.Worker.{
  ProjectorWorkerOptions, assert_worker_options, failure_backoff, WorkerEvent, cycle_completed,
  cycle_failed, slept, Round, run_loop, run, next_failures, delay_of, entry_of, sleep_of,
}
use hive_chameleon.Projector.Worker.Backoff.{failure_backoff_bounds}

abbrev pub slept_unless : Bool → ℕ → List WorkerEvent → List WorkerEvent
slept_unless true delay rest = rest
slept_unless false delay rest = slept delay ∷ rest

-- A cycle is logged first, numbered in its row of failures with its backoff; then the worker
-- sleeps, for the poll interval after a cycle that completed and for the logged backoff after one
-- that failed, unless it is aborted in its sleep.
abbrev pub IsLog :
    ProjectorWorkerOptions
    → ℕ
    → List (Result Failure HafProjectorRunResult × Bool)
    → List WorkerEvent
    → Type 0
IsLog o failures [] es = es ≡ []
IsLog o failures ((ok r, aborted) ∷ cycles) es =
    (1 ≤ o.poll_interval_ms)
    × ((rest : List WorkerEvent) × (es
          ≡ cycle_completed r ∷ slept_unless aborted o.poll_interval_ms rest)
        × IsLog o 0 cycles rest)
IsLog o failures ((err e, aborted) ∷ cycles) es =
    (delay : ℕ) × (delay
      ≡ failure_backoff (failures + 1) o.initial_failure_backoff_ms o.maximum_failure_backoff_ms)
    × (1 ≤ delay)
    × (delay ≤ o.maximum_failure_backoff_ms)
    × ((rest : List WorkerEvent) × (es
          ≡ cycle_failed (failures + 1) delay e ∷ slept_unless aborted delay rest)
        × IsLog o (failures + 1) cycles rest)

module _ {W : Type 0} (cycle : Exec W Failure HafProjectorRunResult)
    (o : ProjectorWorkerOptions) where
  run_loop_induction :
      (P : W → Type 0)
      → ((w : W) → P w → P (cycle w).1)
      → (rounds : List Round) (w : W) (failures : ℕ) → P w
      → P (run_loop cycle o rounds w failures).world
  unfolding run_loop
  run_loop_induction P keep [] w failures h = h
  run_loop_induction P keep (round ∷ rounds) w failures h =
      elim (Bool-cases round.aborted_at_head) [
        | inl e ↦ rw e h
        | inr e ↦ rw e (run_loop_induction P keep rounds (cycle w).1 _ (keep w h))
      ]

  -- What the cycles give until a round is aborted at its head, each with whether it is aborted
  -- before its sleep.
  unfoldable pub cycles_of : List Round → W → List (Result Failure HafProjectorRunResult × Bool)
  cycles_of [] w = []
  cycles_of (round ∷ rounds) w = elim round.aborted_at_head [
    | true ↦ []
    | false ↦ ((cycle w).0, round.aborted_at_sleep) ∷ cycles_of rounds (cycle w).1
  ]

  slept_same :
      (aborted : Bool) (delay : ℕ) (rest : List WorkerEvent)
      → sleep_of cycle o aborted delay rest ≡ slept_unless aborted delay rest
  slept_same true delay rest = refl
  slept_same false delay rest = refl

  IsLog-entry :
      assert_worker_options o ≡ true
      → (result : Result Failure HafProjectorRunResult) (failures : ℕ) (aborted : Bool)
        (cycles : List (Result Failure HafProjectorRunResult × Bool)) (rest : List WorkerEvent)
      → IsLog o (next_failures cycle o failures result) cycles rest
      → IsLog o failures ((result, aborted) ∷ cycles) (
          entry_of cycle o failures result
          ∷ sleep_of cycle o aborted (delay_of cycle o failures result) rest)
  unfolding assert_worker_options
  IsLog-entry valid (ok r) failures aborted cycles rest h = (
    ground (arith, valid),
    (rest, ap (λ es. cycle_completed r ∷ es) (slept_same aborted o.poll_interval_ms rest), h),
  )
  IsLog-entry valid (err e) failures aborted cycles rest h =
      let delay = delay_of cycle o failures (err e) in
      let (low, high) = failure_backoff_bounds o (failures + 1) valid in
      (
        delay,
        refl,
        ground (arith, valid, low),
        high,
        (
          rest,
          ap (λ es. cycle_failed (failures + 1) delay e ∷ es) (slept_same aborted delay rest),
          h,
        ),
      )

  run_loop-IsLog :
      assert_worker_options o ≡ true
      → (rounds : List Round) (w : W) (failures : ℕ)
      → IsLog o failures (cycles_of rounds w) (run_loop cycle o rounds w failures).events
  unfolding run_loop cycles_of
  run_loop-IsLog valid [] w failures = refl
  run_loop-IsLog valid (round ∷ rounds) w failures = elim (Bool-cases round.aborted_at_head) [
    | inl e ↦ rw e refl
    | inr e ↦ rw e (
        IsLog-entry valid (cycle w).0 failures round.aborted_at_sleep (cycles_of rounds (cycle w).1)
          _ (run_loop-IsLog valid rounds (cycle w).1 (next_failures cycle o failures (cycle w).0)))
  ]

  -- The log of a worker with valid options has one entry for each cycle it runs, in their order, and
  -- is otherwise only sleeps: a completed cycle is logged with its result, a failed one with its
  -- error, its number in the current row of failures and the backoff for that number. Then, unless
  -- it is aborted there, the worker sleeps for the poll interval or for the logged backoff, at
  -- least 1 ms and after a failure at most the maximal backoff.
  pub run-IsLog :
      (rounds : List Round) (w : W)
      → assert_worker_options o ≡ true
      → IsLog o 0 (cycles_of rounds w) (run cycle o rounds w).events
  unfolding run
  run-IsLog rounds w valid = run_loop-IsLog valid rounds w 0

-- However long the worker of a projector runs, through failures and forks, the chain of its source
-- stays well formed, what is irreversible stays as it is, and other sources are untouched.
pub run-IsChained :
    {S : Type 0} (p : ForkAwareHafProjector S) (laws : IsProjectionStore p.store)
    (o : ProjectorWorkerOptions) (rounds : List Round) (w : World S)
    → IsChained laws.view (name p) w.store
    → IsChained laws.view (name p) (run (run_once p) o rounds w).world.store
      × Extends laws.view (name p) w.store (run (run_once p) o rounds w).world.store
unfolding run
run-IsChained p laws o rounds w chained =
    run_loop_induction (run_once p) o
      (λ w'. IsChained laws.view (name p) w'.store × Extends laws.view (name p) w.store w'.store)
      (λ w' h.
        let (c, x) = run_once-IsChained p laws w' h.0 in
        (c, Extends-trans laws.view (name p) h.1 x))
      rounds w 0 (chained, Extends-refl laws.view (name p) w.store)
