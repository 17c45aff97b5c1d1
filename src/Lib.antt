-- ===== src/Lib.antt =====
-- agent-chat-bridge: the stores behind the bridge between a chat and a native agent, the admission of
-- private senders, the guard of a conversation, and the idle lifecycle of the agent's process.
--
-- A caller registers a forward job; workers claim it under a lease, run a native turn, record what
-- they did in the job's result document, answer, and finish; people stop turns, answer questions
-- and move a busy thread to a fork. All of it goes through the operations of
-- src/storage/forward-jobs.mjs on one table, and this library models that table and every operation
-- that writes it.
--
-- The run store is the other one: src/storage/store.mjs with steering.mjs, recovery.mjs, resources.mjs
-- and rotation.mjs. A run is a job that a worker leases; beginAgentAttempt ties it to the session of
-- its conversation, bindAgentAttempt to a native thread and turn, finishJobWithOutbox leaves a chain of
-- effects that are sent one after another. Guidance is a job whose text is sent into a running turn; an
-- administrator settles a run or a guidance whose outcome is unknown; a run's resources are sealed
-- before they are deleted.
--
-- The files, and the code each is about:
--   Json                        the result documents and the JSON functions of the queries
--   Storage/ForwardJobs         the row (`row`), `required`, SAFE_EXECUTION_SQL, SAFE_DELIVERY_SQL
--   Storage/ForwardJobs/Register   upsert, requestFingerprint, getRun, getBy…, scopeActivity
--   Storage/ForwardJobs/Claims     loadRecoverable, patchPreparedInput, claim, claimById,
--                                  claimReplyPending, claimReplyById, claimFeedbackPending
--   Storage/ForwardJobs/Leases     renew, patchExecution, patchFeedback, patchReplyResult,
--                                  markReplyPending, markFinished, markFinishedWithoutReply,
--                                  markRetry, releaseFeedback
--   Storage/ForwardJobs/Fork       beginFork and finishFork, with the session binding they move
--   Storage/ForwardJobs/UserInput  the six operations on a question to a person
--   Storage/ForwardJobs/Stop       beginStop and finishStop
--   Storage/ForwardJobs/Lifecycle  the state machine of a job, as a relation on rows
--   Storage/ForwardJobs/History    the table under any sequence of operations
--   Storage/Rotation            src/storage/rotation.mjs: rotateIdleSession
--   Storage/Runs                the rows of bridge_jobs, bridge_outbox, bridge_attempts,
--                               bridge_thread_owners, bridge_steering and bridge_recoveries
--   Storage/Runs/Leases         lease, owned, claimThread, releaseAttempt; Fence groups the
--                               operations on a leased job
--   Storage/Runs/Jobs           insertJob, renewJob, holdAgentAttempt, retryJob
--   Storage/Runs/Outbox         insertOutbox
--   Storage/Runs/Settlement     finishJobWithOutbox, settleOutbox, completeOutboxCleanup
--   Storage/Runs/Claims         claimJobs and claimOutbox
--   Storage/Runs/Attempts       beginAgentAttempt and bindAgentAttempt
--   Storage/Runs/Sessions       setSession, resetSession, resetRejectedThreadAdmission
--   Storage/Runs/Steering       beginSteerAttempt; SteerResults is finishSteerAttempt
--   Storage/Runs/Recoveries     the rows, targets and effects of src/storage/recovery.mjs;
--                               RecoveryQueue is its operations
--   Storage/Runs/Resources      sealResourceRetirement and completeResourceRetirement
--   Storage/Runs/Cursors        setCursor and getCursor; Registers is what they are to a caller
--   Storage/Runs/Inbound        the rows of acceptInbound; Accept is the operation
--   Storage/Runs/Calls          any sequence of the operations that write these tables,
--                               rotateIdleSession and acceptInbound among them
--   Core/PrivateAdmission       src/core/private-admission.mjs: check, replyFor, refuseMessage,
--                               refused, learn, shouldLookupUnion; Memory is `remember`
--   Core/Steering               src/core/steering.mjs: createSteeringHandler, over Storage/Runs/Steering
--   Core/ThreadAdmission        src/core/thread-admission.mjs: admitThread, over Storage/Runs/Sessions
--   Core/ConversationGuard      src/core/conversation-guard.mjs: createConversationGuard
--   Agents/Idle                 src/agents/codex/idle-lifecycle.mjs: IdleLifecycle
--   Prelude                        Boolean tests, lists as tables, results, edits of tables
-- Claims/Selection, Core/Steering/Outcomes, the Steps modules, History/Evolution and, of the run store, the Laws modules and
-- Calls/Keeps, Writes, Guides and Rotations carry the proofs; Witnesses applies the theorems to concrete tables. Core/PrivateAdmission/History is any sequence of its operations.
--
-- An operation is a function from its input, one reading of the clock (`at`) and the table to a
-- result: the value that it returns with the table after it, or a StoreError. A query's WHERE clause
-- is a Boolean test of a row, its ORDER BY a stable sort, its UPDATE the function `update`. An
-- operation is one step, since each runs in a transaction that locks the rows it reads; the rows
-- that other transactions lock (SKIP LOCKED) are a parameter. The digest (sha256), the run ids and
-- the primary keys that the database gives are parameters too. No loop needs fuel.
--
-- admitThread and the steering handler run the operations of the run store on its tables; what the
-- agent's process replies is a parameter. The guard is any sequence of turns of native calls and cleanups, each the code between two awaits.
--
-- A private check is two steps, up to its first await and after its request settles, so that checks
-- interleave; the endpoint's reply and JSON.parse are parameters.
--
-- The model's bounds: texts are compared exactly, not by a collation; INSERT IGNORE cuts the texts of
-- a new row to their columns, but the prompt and the JSON texts fit theirs; numbers are natural; a result
-- document is always a JSON object, so that the fallback for invalid JSON does not occur; an absent
-- text input is the empty text. Not modelled: taskHealthSummary and readEvents (reports), the
-- recovery of a claim whose commit is unknown and the interval between reclassifications of expired
-- leases in store.mjs, the registration locks, the streams of events, the check of
-- connectionId around each operation, time limits, and what lies outside these parts, since it is I/O
-- or has its own tables.
mod Prelude
pub mod Json
pub mod Agents
pub mod Core
pub mod Storage
