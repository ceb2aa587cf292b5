-- ===== src/Lib.antt =====
-- A model of the replicated state machine of the cluster, ClusterFSM, with its commands, its snapshots and its
-- readers, and of four smaller parts that guard the program: the circuit breaker, the limits on queries, the
-- cache of nonces and the difference between manifest and storage.
--
-- The program. Every node of a cluster applies the same Raft log to a ClusterFSM
-- (internal/cluster/raft/fsm.go). The state has four parts, which one lock guards: the table of nodes
-- with the primary writer and the compactor lease, the manifest of files, the API tokens, and the RBAC
-- tables (internal/cluster/raft/fsm_rbac.go). Apply decodes an entry of the log and hands its payload to
-- the apply function of its command, which validates it, changes the state under the lock, and makes a
-- callback. A path that enters the manifest goes through ValidateManifestPath
-- (internal/cluster/raft/path_validation.go).
--
-- The others stand for themselves. CircuitBreaker (internal/circuitbreaker/circuitbreaker.go) wraps calls of a
-- service; slidingWindowCounter, quotaTracker and the Manager that keeps one of each for a token
-- (internal/governance) limit its queries; NonceCache (internal/cluster/security/nonce_cache.go) refuses
-- messages that are replayed; computeDiff (internal/reconciliation/diff.go) compares the manifest with the
-- objects of the storage.
--
-- The files.
--   Prelude      shared names, Boolean tests, strings as bytes, int64, lists
--   GoMap        Go's maps with their laws: lookup, assignment, delete, two-level indices, loops over keys
--   Types        the entries, the payloads, the errors and the callbacks
--   Nodes        applyAddNode, applyRemoveNode, applyUpdateNode, applyUpdateNodeState, applyPromoteWriter,
--                applyDemoteWriter, applyAssignCompactor; Writers and Promotion have their theorems
--   Manifest     Path is ValidateManifestPath and Path/Safe its description; State is
--                applyRegisterFileStruct, applyUpdateFileStruct and applyDeleteFileStruct, Batch is
--                applyBatchFileOps, Readers is GetFile and GetFilesByDatabase, Pages is
--                GetFilesPaginated; Consistent, Preserve, Atomic, Cursors and Paging have their theorems
--   Tokens       Permissions is validatePermissionString, Prefixes the index by prefix, State the five
--                token commands; Consistent and Preserve have their theorems
--   Rbac         State is the tables and the validation, Cascade the deletions of what is below a row,
--                Staging the loops over ChangedFields, Organizations, Teams, Roles and Members the
--                commands; Tables says what consistency is; the other files have their theorems
--   Fsm          Commands is CommandType and the decoders, State is Apply; Keeps, TokenKeeps, Consistent,
--                SinglePrimary, Refused, Ids, FreshIds and Batches have the theorems about every command and
--                every log
--   Snapshot     FSMSnapshot and Snapshot, Restore is Restore, with the loops that keep what passes; Rebuild, Kept
--                and Rows say what these loops do; Consistent, RoundTrip, Lost and Reached have the theorems
--   Breaker      the circuit breaker; Counts, Opens and Recovers have its theorems
--   Nonces       NonceCache; Replay has its theorem
--   Reconciliation  computeDiff; Diff has its theorem
--   Governance   Window is slidingWindowCounter, Quota is quotaTracker, Manager is Manager; Ring reads the slots
--                from the current one back, Log and Spec say what the window promises; Limits, Usage, Sync
--                and Enforced have the theorems
--   Tests        a log, the states that it reaches, and the theorems at these states
--
-- How code and model correspond. An apply function takes the part of the state that it reads and changes,
-- the decoded payload (`none` when json.Unmarshal fails) and the log index, and gives an Outcome: the
-- state after it, the error that it returns, and the callbacks that it makes. A pointer that is looked up
-- in a map and written through is a lookup followed by an assignment to the map. A loop over the keys of a
-- map is a recursion on the list of its keys, in an order that the model of maps keeps to itself. The
-- functions are structurally recursive; only `walk`, the caller that follows the cursors of GetFilesPaginated,
-- has fuel, one more than the number of files, and gives `none` when it runs out. int64(log.Index) and the int32 counter of the breaker wrap
-- as in Go. Times are numbers of nanoseconds, and a function is given its readings of the clock. What
-- allowRequest of the breaker acts on is an argument, since it reads it before it takes the lock.
--
-- Not modelled: locks, but for the reads of the breaker that are out of date (one operation runs at a time), log
-- lines and metrics, the texts of errors, JSON decoding (a parameter, the record Codec; Restore takes a decoded
-- snapshot, in which no node is nil), Persist, the readers of the FSM that copy the state, negative limits (0 stands for them), the
-- SQLite statements of the governance manager, and the other packages of the program, which talk to
-- networks, files, DuckDB and libraries that are not in the repository.
pub mod Prelude
pub mod GoMap
pub mod Types
pub mod Nodes
pub mod Manifest
pub mod Tokens
pub mod Rbac
pub mod Fsm
pub mod Snapshot
pub mod Breaker
pub mod Nonces
pub mod Reconciliation
pub mod Governance
pub mod Tests
