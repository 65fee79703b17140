-- ===== src/Lib.antt =====
-- Adesh: a service that lets an assistant act for its owner, under the owner's approval. A request
-- becomes operations. A gate looks at the request and completes an operation as a draft, blocks it,
-- or asks for the owner's approval, perhaps with an out-of-band challenge. An approving decision
-- permits a system call, which a runner executes under the operation's lease. A job queue carries
-- work in the background. All state is in SQLite.
--
-- The parts and their files:
-- * Requests models submit_request of crates/adesh-daemon/src/http/routes.rs (Requests/Submit), in
--   the same monad and on the same state as the runner, with the methods of storage.rs for gate
--   decisions, compiled slices and reasoning outputs (Records) and for manual artifacts (Artifacts).
-- * Runner models the execution of permitted system calls in crates/adesh-daemon/src/http/routes.rs:
--   execute_permitted_syscalls_under_lease (Runner/Execute), execute_permitted_syscalls,
--   recover_pending_operation_executions, decide_approval and cancel_operation (Handlers), on a state
--   of the database, the leases and the calls of tools that were made (World). Its calls are the
--   methods of the parts below, in a monad that keeps the state at an error (Calls); Calls/Moves is
--   about an order on the states that calls respect. Runner/Quiet, Spent, Taken, Attempts, Once and
--   Sequence have the lemmas on the steps, Handled is about any sequence of handlers, and Refused
--   about leases and failing tools.
-- * Jobs models the queue of crates/adesh-storage-sqlite/src/job_queue.rs and the types of
--   crates/adesh-core/src/ports/job_queue.rs. The table is a list of rows (Jobs/Table), and there is
--   one function for each method: enqueue_job, lease_jobs, fail_job, ack_job, cancel_job, get_job, in
--   Jobs/Enqueue, Lease, Retry and Finish. Jobs/Row, Updates and Steps have the invariant of the
--   table and the change of a row; Jobs/History is about any sequence of calls.
-- * Leases models try_acquire_operation_lease, renew_operation_lease and release_operation_lease of
--   crates/adesh-storage-sqlite/src/storage.rs. Leases/Locks is the abstract view of the table, a
--   lock for each operation, and Leases/Refined is about both.
-- * Store has the rows of the other tables of storage.rs as one record (Rows, Tables), the responses
--   (Responses), and the handling of idempotency keys. Approvals (Items, Oob, Consume) and Operations
--   (Create, States, Syscalls, Audit) model the methods of storage.rs of the same names on it.
--   consume_approval_atomic is split into the steps of its body: pass_oob, decide with
--   permitted_action and insert_syscall, record_decision.
-- * Registry models the schema registry, the capability snapshots and the review queue of storage.rs:
--   canonical_json_string (Canonical), load_current_versions and get_current_versions (Versions),
--   register_schema_entry and get_schema_entry (Entries), mint_capability_snapshot,
--   get_capability_snapshot and resolve_action_descriptor (Snapshots), and
--   create_capability_activation_review_item, decide_review_item, get_review_item and
--   list_review_items (Reviews). Registry/History is about any sequence of calls.
-- * Workflows models the workflows of storage.rs: parse_workflow_spec_steps, register_workflow_spec
--   and get_workflow_spec (Specs), create_workflow_instance and get_workflow_instance (Instances),
--   and update_workflow_instance_state (Moves). Workflows/Final is about any sequence of calls.
-- * Schemas models crates/adesh-core/src/action_schemas.rs: the lookup of an action in a capability
--   snapshot, the normal form of payloads, and the validation of results and against stored schemas.
--   An approval uses them to permit a call, and the gate uses the descriptors.
-- * Kernel models crates/adesh-daemon/src/kernel.rs, the gate.
-- * Memory models, of crates/adesh-daemon/src/cognition.rs, normalize_key (Memory/Texts), the
--   polarity, overlap and conflict of statements (Statements), and the choice of claims that a task
--   gets to see: dedupe_claims, select_ranked_claims, fill_with_candidate_claims and
--   prune_redundant_risks (Claims), determine_claim_state and merge_evidence (States), and the
--   storage of claims and their evidence in storage.rs (Stored). Memory/Greedy is about the loop that
--   the choices share.
-- * Common, Outcome, Chrono, Json and Unicode are shared: lists as tables, the result of a fallible
--   method, instants, JSON values, and what is used of Rust's texts. An Outcome is a value, one of
--   the errors of crates/adesh-core/src/error.rs without its text, or an abort (a panic of the
--   program).
--
-- How code becomes definitions. A method takes the tables and returns its result and the tables
-- after. A method that runs in a transaction is a `transact`: an error or an abort leaves the tables
-- as they were. ack_job, cancel_job and the renewal and release of a lease are single statements. An
-- update with a condition is `update_where`, and the number of rows it affects is `count_where`. The
-- clock and fresh identifiers (Uuid::new_v4) are arguments. ORDER BY is a stable sort, so that rows
-- that are equal keep the order of insertion.
--
-- Parameters: the tools, the clock, the fresh identifiers and the configured attempts of the runner
-- (`Outside`), of which nothing is assumed: a tool may answer by all the calls before; the sum of an
-- instant and a duration (`Plus`, of chrono), which has no result where chrono aborts; trim,
-- to_lowercase and contains of Rust's texts (`Unicode`), with the documented laws `IsUnicode` where a
-- theorem needs them; the JSON text of strings and numbers and the SHA-256 digest (`Encoding`), the
-- decoding of base64 (`Decode`), the model provider (`Generate`) and the lower case of a character
-- (`Lowercase`), of which nothing is assumed; and whether an operation exists, for the foreign key of
-- a lease.
--
-- Bounds and fuel. Integers of 64 bits that only count are natural numbers, or integers where the
-- caller chooses them; the shift, the multiplication and the cap of the retry delay have their 64
-- bits written out, and an overflow aborts, as in the profile that `cargo run` builds. Quotients of
-- two counts, which the program compares as floats, are compared as products.
-- validate_instance_against_schema runs on fuel, one more than the nesting of the schema: each
-- recursive call of the code goes to a schema that is nested less deep.
--
-- Not modelled: faults of the database itself (errors of sqlx that become Unavailable); the
-- encoding of instants, JSON columns and responses as texts and back, which is taken to be the
-- identity (serde_json may change a float in its last digit there); the texts of errors; collisions
-- of the fresh identifiers of operations, transitions, traces and decisions; columns that no
-- modelled operation reads (the hash of a stored response, the content of an event). Of storage.rs:
-- the built-in schemas and snapshot that the first start stores, ingest, artifacts, episodes,
-- search documents, the search of workflow specs, interfaces, evaluation runs and replays. Of the
-- daemon: the scores of cognition.rs and the derivation of claims from episodes, connectors, tools,
-- models, the other handlers of HTTP and the host wrappers. Events that the runner only broadcasts
-- to observers, rate limits and the pause between attempts are left out. Handlers of the runner run
-- one after the other: the interleaving of two that run at the same time is not modelled.
pub mod Common
pub mod Outcome
pub mod Chrono
pub mod Json
pub mod Unicode
pub mod Schemas
pub mod Jobs
pub mod Leases
pub mod Store
pub mod Approvals
pub mod Registry
pub mod Operations
pub mod Workflows
pub mod Kernel
pub mod Memory
pub mod Calls
pub mod Runner
pub mod Requests
