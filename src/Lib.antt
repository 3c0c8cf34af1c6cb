-- ===== src/Lib.antt =====
-- The agent execution platform, a Rust service that executes contract calls for AI agents through
-- ERC-4337 smart wallets: a request is validated, simulated and stored, a job for it goes through a
-- Redis queue to a worker, the worker builds a sponsored UserOperation, signs it and submits it to a
-- bundler, and the outcome is stored and posted to the agent's callback URL.
--
-- Files, with the code that each is about:
-- Types: src/types/mod.rs. A Uuid, a time and a fixed-width integer are native numbers, a String is
--   the list of its scalar values.
-- Service: what Redis and PostgreSQL are to the program. A command has its documented effect on the
--   server's data, and its call is answered or fails; a call that fails may or may not have been
--   carried out. Healthy means that every call is answered.
-- Queue: src/queue/mod.rs, each operation over three kinds of lists (Queue.Lists). Queue.Healthy,
--   Order, Traces and Recovery are about a Redis that answers, Counts and Conservation about any Redis.
-- Db: src/db/mod.rs and src/db/models, over the tables of Db.Tables.
-- Worker: the loop of run_worker in src/worker/mod.rs with fire_webhook and re_enqueue_with_bump.
--   What execute_erc4337 does is an argument, since its outcome is the network's. Requeue, Progress,
--   Status and Completion are about turns of the loop.
-- Engine: ExecutionEngine::validate of src/execution_engine/mod.rs.
-- Simulation: src/execution_engine/simulation/mod.rs, over a node.
-- Relayer: src/relayer. Utils has utils.rs and the packing helpers, UserOp the operation, its RPC form
--   and its hash, Sponsor the paymaster signer, Answers and Fees the bundler's answers and the gas
--   prices, Receipt the wait for a receipt; Hashes says which fields of an operation are signed.
-- Submission: sign_user_operation_for_submission and submit_user_operation_with_pre_verification_retry
--   of src/worker/mod.rs, which use Relayer.
-- Callback, Api: validate_callback_url and handle_execute of src/api/services/mod.rs, which use
--   Engine, Db and Queue; the job that handle_execute enqueues is the one that Worker takes.
--   Callback.Blocks and Ranges are about the addresses, Db.Keys about the table of the API keys.
-- Issuance: the limit on the issue of API keys, and the checks before it, in src/api/routes/mod.rs.
-- Delivery: src/webhook/mod.rs, for the webhooks that Worker starts.
-- Wallets: src/agent_wallet/mod.rs. Ciphers has encrypt_key_hex and decrypt_key_hex, Registry the
--   registry over the table agent_wallets, Keys the keys that it decrypts to sign; Rows, Lookup, Stored
--   and Canonical are about the rows of the table, Names about the namespaced identifier.
-- Protocols: the typed adapters of src/protocols, which make the requests that Api executes. Amounts,
--   Parsing and Printed have the amounts in text that the adapters share, Calldata the encoding of a
--   call, Platform what a handler is given: the wallet of an agent and the ways into Api.
-- Protocols.AaveV3: aave_v3/adapter.rs (Requests, Checks, Compile, Reads) and aave_v3/service.rs
--   (Health, Resolve, Service, Balances); Guard, MaxBorrow and Borrowing are about the guard
--   of a borrow.
-- Protocols.Morpho: the market of morpho/service.rs, its interest (Math, Accrual) and the guard of a
--   borrow and of a withdrawal (Health, Covered); the actions of morpho/adapter.rs (Compile, Requests).
-- Protocols.Balancer: the swap of balancer_v3/adapter.rs (Checks, Compile, Pools) and of
--   balancer_v3/service.rs (Limits, Quotes, Best, Selection, Service); Protected is about a swap that
--   was resolved.
-- Protocols.Acceptance, with Accepted of AaveV3 (and Compiled), Balancer and Morpho: what the adapters
--   compile, before the validation of Engine.
-- Crates: the crates hex and ethers, the node and the clock, as records of functions with the
--   documented laws that the proofs use. Prelude: texts, results, and calls that pass a state along.
-- Tests: the parameters as concrete functions, runs, and each theorem at an input.
--
-- Effects: a function that awaits a server or a node takes the state of what it calls and returns it
-- with its result; what was done before an error stays done. The state of an operation is changed
-- by that operation only, so other clients act between operations and not within one; the queue's
-- theorems that hold for each answer of Redis do not need this.
-- Where the code runs reads of a node at the same time, the model has them in the order in which the
-- code lists them. U256 is a natural number with its overflow checks written out; U512, in Morpho's
-- products of two U256, never overflows and is a natural number. The end of the paymaster's window is
-- a sum of two u64 that wraps, as in a release build, and an estimate is stored as an i64, with the
-- wrap of the cast.
-- Parameters: abi::encode and abi::decode, the parsing of an H256, keccak256, format_units and
-- parse_units, AES-256-GCM, base64, the random generators and the signature schemes are functions with
-- the laws that are named in Crates and Wallets.Ciphers.
-- Fuel: the recovery of stale jobs runs on fuel, and more than the length of the processing list is
-- enough; the wait for a receipt on 41 rounds, which are enough for 120 seconds in steps of 3; the
-- worker's endless loop is a number of turns. Everything else is structural.
-- Not modelled: logging, timestamps of rows, the wait inside BLMOVE, the identifiers of webhook
-- events, the overflow of the Unix time, and the zeroizing of keys in memory. The simulation of a
-- batch by the bundler, the other HTTP routes, the rate limiter (which counts in f64), the start-up,
-- the liquidity actions of Balancer with its index of pools over HTTP, the amounts and the queries of
-- Morpho, and the adapters of Compound III, GMX V2 and Uniswap V4 are not modelled: where a modelled
-- part calls one of them, it is an argument. Solidity contracts and the migrations of the database
-- are outside; what they promise is in the models of the servers.
pub mod Prelude
pub mod Types
pub mod Service
pub mod Crates
pub mod Engine
pub mod Relayer
pub mod Submission
pub mod Callback
pub mod Delivery
pub mod Api
pub mod Simulation
pub mod Issuance
pub mod Queue
pub mod Db
pub mod Worker
pub mod Wallets
pub mod Protocols
pub mod Tests
