-- ===== src/Lib.antt =====
-- GaugeMesh carries a request context through adapters, chooses a route for it, and grants and
-- counts what the request may do. This library models parts of the crate crates/gaugemesh-core
-- (the files below are in its src/ unless a path says otherwise) and of crates/gaugemesh, and proves
-- what makes them correct.
--
-- Parts, and the files that model them:
--   Digest      digest.rs: JSON values, `canonical_json` and `of_json`, in Digest/Equality their
--               equality. Every other part seals its
--               records with these digests.
--   Capability  capability.rs: the identity of a capability, its order and its equality.
--   Context     context.rs: `RequestContext` with its parts; Context/Equality has the derived
--               equality of the records, Context/Json their serialized form.
--   Invariant   invariant.rs: `conserve`, which compares the context before and after an adapter.
--               Each `push` of the source to one of the report's lists is a `Verdict`.
--   Budget      budget.rs: `debit`; its result is compared by `conserve`.
--   Lease       lease.rs: `issue`, `authorize` and `authorize_invocation`. The terms that the
--               manifest digest covers stand in a record of their own, `LeaseTerms`.
--   Policy      policy.rs: `compile` and `evaluate`.
--   Route       route.rs: Route/Planner has `decide` and `plan`, Route/Verifier has
--               `verify_integrity` and `validate_explanations`, Route/Json the serialized types.
--   Task        task.rs: Task/Update has the constructors of updates, Task/Shape the checks of
--               `validate_shape`, Task/Record the operations (`verify_route` is the method
--               `verify_integrity` of the record). Runs are the data type `Reaches`.
--   Storage     storage.rs: Storage has `MemoryStorage`, the routes with their three indexes;
--               Storage/Runs has the sequences of its calls. Storage/Sqlite has the task routes
--               of `SqliteStorage` on a table, the list of its rows in their order of insertion.
--   Run         run.rs: Run has `RunRecord` and its journal, Run/Store the tables of the runs and
--               the operations of `SqliteStorage` on them.
--   ProcessPool process_pool.rs: the slots and permits of `ProcessPool`; ProcessPool/Interleaved has
--               the calls in any order.
--   Admission   crates/gaugemesh/src/admission.rs: `AdmissionControl`, its calls stage by stage.
--               Admission/Stages and Admission/LookingUp have what the stages keep,
--               Admission/Interleaved their order and the bounds.
--   Federation  federation.rs: the catalogues of `Federation`, with `tool`, `resource` and `prompt`
--               under the names `find_tool`, `find_resource` and `find_prompt`.
--   Translation translation.rs: `report_translation`, which asks `conserve` and sums the losses.
--   Causal      causal.rs: `append` to the graph of observations.
--   Protocol    protocol.rs: the revisions of MCP.
--   Security    security.rs: Security/ApiKeys has `ApiKeyStore` with `issue`, `verify` and `revoke`
--               under the names `issue_key`, `verify_key` and `revoke`; argon2 is the parameter
--               `PasswordHashing`. Security/Tokens has the checks of an OIDC token, whose header
--               and claims the crate jsonwebtoken decodes; Security/Origins has the guard of outbound
--               origins, with the addresses of a name as the parameter.
--   Runtime     runtime.rs: Runtime/Breaker has `CircuitBreaker`, Runtime/Queue has
--               `DeficitRoundRobin`.
--   Base        what all share: tests on numbers, lists, results, orders, sorting, machine words,
--               characters.
--
-- How the code is written here:
--   - Numbers are natural numbers. Where the source adds or subtracts with a check, the check is
--     written out with the bound of the word (Base/Words); where its sums cannot pass the word's
--     bound, the sum is plain. A newtype over a text or a number is that text or number.
--   - A `Result` is the type of Base/Results, `?` is its `do`. A method that changes its object
--     takes the state and returns the next one.
--   - A `BTreeMap` or `BTreeSet` is a list of its entries; the sets of a context are ascending lists.
--   - SHA-256, the length of an encoded JSON value and the hexadecimal text of a digest belong to
--     other crates and are the fields of the parameter `Hashing`. A theorem that needs the hash to
--     tell two values apart says so among its hypotheses.
--   - A SQL statement is the function of the list of rows that its text describes; the columns that
--     hold the text of a number, a digest or a record hold that value. A transaction that fails
--     returns the error alone, so the table stays. Mutexes are not poisoned.
--   - Identifiers that the source draws at random are arguments.
--   - Loops are structural recursions. The rounds of `DeficitRoundRobin::pop` are bounded by the
--     number of queues, as in the source; the walk of `CausalGraph::append` has one more than
--     the number of nodes as its fuel, and a theorem says that it is never used up.
--
-- Not modelled: the texts of violations, the serde glue of parsing, the engine of SQLite with its
-- migrations, the clients of OIDC, the start and the end of processes, the search, templates and
-- cursors of the federation, the configuration, and the rest of crates/gaugemesh with its HTTP,
-- MCP and model endpoints, which mostly does I/O.
pub mod Base
pub mod Digest
pub mod Capability
pub mod Context
pub mod Runtime
pub mod Route
pub mod Lease
pub mod Task
pub mod Policy
pub mod Invariant
pub mod Budget
pub mod Translation
pub mod Causal
pub mod Protocol
pub mod Security
pub mod Storage
pub mod Run
pub mod ProcessPool
pub mod Admission
pub mod Federation
