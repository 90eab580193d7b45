-- ===== src/Lib.antt =====
-- Hive Chameleon, a game that publishes its match results and collectibles on the Hive blockchain.
-- This library models the part that writes to the chain and the part that reads it back.
--
-- The parts and how they interact. A match publisher gathers finished rounds into a batch event.
-- The gateway checks the event, writes it as canonical JSON, and builds the operation that carries
-- it; an isolated signer boundary inspects the transaction again and calls the signature provider.
-- The projector follows the chain: it reads blocks from a HafAH source, validates the operations
-- of the application, stores them with a checkpoint for each block, goes back where the chain has
-- forked, and marks as irreversible what the chain has settled. A worker runs its cycles. The
-- match publisher takes frozen batches from an outbox, journals each signing attempt and broadcasts;
-- the collectible issuer does the same for single events. The API service, which the game's
-- clients call, issues and checks session tokens.
--
-- The files.
--   Prelude, Prelude/*: names of the libraries, Boolean tests, lists and association lists.
--   Exec, Exec/Triple: methods that change state and may throw, and rules for what they ensure.
--     What is written before a throw stays written.
--   Gateway/Json, Gateway/Library: JSON values, and what the gateway takes from zod, `Date`,
--     `canonicalize`, `JSON` and node's hash: a record of functions, with named laws.
--   Gateway/Protocol/Event, Text, Check, Codec: packages/hive-gateway/src/protocol/*.ts. An event
--     is a constructor of `HiveChameleonEvent`; `valid_event` is the schema beyond its shape.
--     Texts are read by code points; the patterns admit ASCII only.
--   Gateway/Contracts, Policy, Signature: contracts.ts, policy.ts, official-signer-policy.ts and
--     signature.ts of packages/hive-gateway/src.
--   Gateway/Send: gateway.ts. Gateway/Signer: signer-boundary.ts. Gateway/Signer/Fixture: the
--     ledger of testing/fakes.ts.
--   Projector/Model, Store, Sync, Sync/Run, InMemory, Validator, Worker: model.ts, errors.ts,
--     store/projection-store.ts, source/haf-source.ts, sync/haf-projector.ts,
--     testing/in-memory-store.ts, validation/operation-validator.ts and
--     runtime/projector-worker.ts of workers/haf-projector/src. Each method keeps its name in
--     snake case; a loop, a branch or the rest of a method after an early return has its own.
--   Projector/Postgres, with Statements, Indexes, Inserts, Finality, Results, Collectibles,
--     Materialize and Store: store/postgres-projection-store.ts of workers/haf-projector/src, one
--     function for each query, over tables as lists of rows, with the primary keys and unique
--     indexes of infra/postgres/migrations: a statement that would repeat a key is refused.
--   Projector/Hafah, Hafah/Pages: source/hafah-http-source.ts of workers/haf-projector/src.
--   Publisher/Batch: batch-builder.ts of workers/match-publisher/src. Publisher/Worker:
--     runtime/match-publisher-worker.ts and store/publication-store.ts.
--   Collectible: workers/collectible-issuer/src. Outbox: what the two publishing workers share.
--   Api/Token: apps/api/src/auth/token.service.ts.
--   The other modules (Laws, Chain, Refines, Report, Journal and so on) hold proofs, the modules
--   Tests runs and examples.
--
-- State. A method of a store or of the boundary is a function from a state to a result and a state.
-- The chain and the signature provider are other systems: a call of them is answered at a tick,
-- each call takes one, and no two ticks need agree, so the theorems hold wherever a fork falls.
--
-- Bounds and fuel. Numbers of the source that are checked to be safe integers are natural numbers.
-- The loops of `readBlockSnapshot` and `reconcileFork` run on the number of their rounds, computed
-- from their bounds, so they never stop early. The worker runs on the list of its rounds.
-- The loop of `getOperations` runs on fuel: no page is read twice, and a page is named by a block of
-- the range and a 64-bit id, so `bound` rounds are enough.
--
-- Of the database, a transaction that the server ends with an error changes nothing; a server that
-- stops answering in the middle of a commit is not modelled. Joins with other schemas, checks of
-- single rows and triggers are parameters.
--
-- Not modelled: the outbox of the match publisher and the journal of the collectible issuer in
-- PostgreSQL, the schema itself (SQL), the HTTP client of the signer, the rest of the
-- API service, the adapters of the WAX library, the game runtime and its clients.
pub mod Prelude
pub mod Api
pub mod Exec
pub mod Collectible
pub mod Gateway
pub mod Outbox
pub mod Projector
pub mod Publisher
