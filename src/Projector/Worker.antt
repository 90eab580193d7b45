-- ===== src/Projector/Worker.antt =====
-- workers/haf-projector/src/runtime/projector-worker.ts: `HafProjectorWorker`.
-- The abort signal and the sleeper are the environment's. A round of the loop is given by what the
-- signal shows at its two tests; the list of rounds ends where the observation of the worker ends.
-- Milliseconds are natural numbers: `assertWorkerOptions` refuses other options.
pub mod Backoff
pub mod Run
use hive_chameleon.Prelude.{
  ℕ, suc, String, ◌+◌, ◌-◌, ◌*◌, ◌^◌, Bool, true, false, not, ◌||◌, Option, none, some, List, [],
  ◌∷◌, ltb, leb, if◌then◌else◌, min, max,
}
use hive_chameleon.Exec.{Result, ok, err, Exec}
use hive_chameleon.Projector.Model.{Failure}
use hive_chameleon.Projector.Sync.{HafProjectorRunResult}

pub record ProjectorWorkerOptions : Type 0 where
  pub poll_interval_ms : ℕ
  pub initial_failure_backoff_ms : ℕ
  pub maximum_failure_backoff_ms : ℕ

-- `Number.MAX_SAFE_INTEGER`.
abbrev pub max_safe_integer : ℕ
max_safe_integer = 2 ^ 53 - 1

abbrev pub not_positive_safe : ℕ → Bool
not_positive_safe value = ltb max_safe_integer value || ltb value 1

-- `false` where the constructor throws a `TypeError`.
unfoldable pub assert_worker_options : ProjectorWorkerOptions → Bool
assert_worker_options options =
    if not_positive_safe options.poll_interval_ms
      || (not_positive_safe options.initial_failure_backoff_ms
          || not_positive_safe options.maximum_failure_backoff_ms)
    then false
    else not (ltb options.maximum_failure_backoff_ms options.initial_failure_backoff_ms)

unfoldable pub failure_backoff : ℕ → ℕ → ℕ → ℕ
failure_backoff failures initial maximum = min maximum (initial * 2 ^ min (max (failures - 1) 0) 30)

-- What the worker logs, and how long it sleeps.
pub data WorkerEvent : Type 0 where
  cycle_completed : HafProjectorRunResult → WorkerEvent
  cycle_failed : (consecutive_failures retry_after_ms : ℕ) → Failure → WorkerEvent
  slept : ℕ → WorkerEvent

-- `signal.aborted` at the head of the loop and before the sleep.
pub record Round : Type 0 where
  pub aborted_at_head : Bool
  pub aborted_at_sleep : Bool

pub record WorkerRun (W : Type 0) : Type 0 where
  pub world : W
  pub consecutive_failures : ℕ
  pub events : List WorkerEvent

module _ {W : Type 0} (cycle : Exec W Failure HafProjectorRunResult)
    (options : ProjectorWorkerOptions) where
  -- The new count of failures, and the delay with the log entry.
  abbrev pub next_failures : ℕ → Result Failure HafProjectorRunResult → ℕ
  next_failures failures (ok result) = 0
  next_failures failures (err error) = failures + 1

  abbrev pub delay_of : ℕ → Result Failure HafProjectorRunResult → ℕ
  delay_of failures (ok result) = options.poll_interval_ms
  delay_of failures (err error) =
      failure_backoff (failures + 1) options.initial_failure_backoff_ms
        options.maximum_failure_backoff_ms

  abbrev pub entry_of : ℕ → Result Failure HafProjectorRunResult → WorkerEvent
  entry_of failures (ok result) = cycle_completed result
  entry_of failures (err error) = cycle_failed (failures + 1) (delay_of failures (err error)) error

  abbrev pub sleep_of : Bool → ℕ → List WorkerEvent → List WorkerEvent
  sleep_of true delay_ms rest = rest
  sleep_of false delay_ms rest = slept delay_ms ∷ rest

  abbrev pub stopped : W → ℕ → WorkerRun W
  stopped w failures = record { world = w; consecutive_failures = failures; events = [] }

  -- The `while` loop of `run`.
  unfoldable pub run_loop : List Round → W → ℕ → WorkerRun W
  run_loop [] w failures = stopped w failures
  run_loop (round ∷ rounds) w failures = elim round.aborted_at_head [
    | true ↦ stopped w failures
    | false ↦
        let (result, w') = cycle w in
        let rest = run_loop rounds w' (next_failures failures result) in
        record rest {
          events =
              entry_of failures result
              ∷ sleep_of round.aborted_at_sleep (delay_of failures result) rest.events;
        }
  ]

  unfoldable pub run : List Round → W → WorkerRun W
  run rounds w = run_loop rounds w 0
