-- ===== src/Lib.antt =====
-- Moonbot, a local agent gateway: chat channels hand messages to the gateway, which makes a task of
-- each, runs the tasks of a channel session one after the other, asks for approval of risky tools, and
-- answers in the channel.
--
-- Parts, files and source (paths from the repository's root):
--
-- - Prelude, JsMap: shared names; the language's Map as an association list in order of insertion.
-- - Task: tasks, states, messages and responses (src/types/index.ts).
-- - Registry (src/orchestrator/TaskRegistry.ts): tasks by id. create, update_state, get, cleanup,
--   get_stats are the methods of these names; `events` is what its listeners are handed.
--   Registry/Transitions is about one call, Events and Trace about all, Housekeeping about cleanup and
--   getStats.
-- - ChannelQueue (src/orchestrator/PerChannelQueue.ts): a queue and a flag for each channel session.
--   Contents, Flags: one call. Refinement, Fifo: sequences of calls.
-- - SessionMapper (src/orchestrator/SessionTaskMapper.ts): the task of a session, with expiry.
-- - Orchestrator (src/orchestrator/TaskOrchestrator.ts, src/orchestrator/ApprovalFlowCoordinator.ts):
--   State is the state and the messages sent, Channel is processChannel, executeTask and the errors,
--   Approvals is the coordinator, Tasks is createTask, abortTask, cleanup and shutdown, and the steps
--   of the whole. The source's asynchronous functions are cut at their awaits: `begin` is executeTask
--   up to the await of the executor, `finish` the rest; `in_flight` holds the executions that wait. The
--   runtime runs the parts between awaits without interruption, so that every order of calls, replies
--   of executors, timers and sweeps is a sequence of steps. Lifecycle, Serial and Sequential are
--   invariants of all such sequences; Creation, Settling, Abort, Decisions and Denial are about single
--   steps.
-- - RateLimiter (src/gateway/ConnectionRateLimiter.ts): connection attempts in a sliding window.
-- - Pairing (src/auth/pairing.ts): pairing codes, approved users and tokens.
-- - ApprovalStore, ApprovalFlow (src/tools/approval/ApprovalStore.ts,
--   src/tools/approval/ApprovalFlowManager.ts): approval requests in memory and in a file, and the
--   responses to them. `decide`, `written` and `conclude` are the parts of handleResponse between its
--   awaits; handle_response composes them, and Race composes two responses in another way.
-- - Replanner (src/agents/replanner.ts and src/agents/replanner/): the classification of a failure, the
--   limits of recovery and the choice of what to do. Executor (src/agents/executor.ts) is the loop that
--   runs a step of a plan until it succeeds or is given up; what other runs do to the replanner, which
--   all share, at its awaits is an argument. Budget and Spending are about what a call leaves of the
--   limits, Recovery and Plan about whole runs.
-- - NodeSessions (src/tools/nodes/NodeSessionManager.ts): paired nodes, in Upkeep what happens to them
--   later. Counts and Steps are about the number of nodes of a user, Consent about screen capture.
-- - Text: texts as lists of code points, with the language's functions on strings that the checks use.
-- - NodeCommandValidator (src/tools/nodes/NodeCommandValidator.ts), with Validity about what it lets
--   through, and NodesTool (src/tools/nodes/NodesTool.ts), the tools for nodes up to the call of the
--   node, with Handing and Consented about when a node is called.
-- - NodeCommunicator (src/gateway/NodeCommunicator.ts): requests to nodes, their timers and
--   answers. Balance is about the requests sent and settled, Settling about sequences of events,
--   Deadlines about the timers.
-- - ToolRuntime (src/tools/runtime/ToolRuntime.ts): invocations, their limit and retries; Results is
--   src/tools/runtime/ToolResultBuilder.ts, ApprovalManager is src/tools/runtime/ApprovalManager.ts,
--   Approvals are the decisions on invocations that wait, and the sweep. A call of a tool is cut at its
--   await. Steps, Tidy, Slots and Limits are about sequences of steps, Decisions about an approval,
--   Commands about which commands need none.
-- - ProcessSessions (src/tools/process/ProcessSessionManager.ts): processes of users, in Output what is
--   kept of their output, in Removal the sweeps. A creation is cut at its await into begin_create and
--   finish_create. Kept, Counts, Limited, Captured and Steps are about the limits.
-- - SsrfGuard (src/tools/http/SsrfGuard.ts): addresses, and in Urls URLs and the look-up of their hosts.
--   Ranges and Groups are about addresses of the two families, Ending and Resolving about URLs.
-- - PathValidator (src/tools/filesystem/PathValidator.ts), CommandSanitizer
--   (src/tools/desktop/CommandSanitizer.ts): directories and commands.
-- - Gateway: Authenticator and Tokens are src/gateway/GatewayAuthenticator.ts, JsonRpc is
--   src/gateway/json-rpc.ts.
-- - SessionKey (src/sessions/SessionKey.ts), SessionManager (src/sessions/manager.ts): sessions, their
--   keys, and in File their files, by lines. Lookup is about the session that a task is given,
--   Compaction and Reload about what a new process reads.
-- - CronManager (src/cron/manager.ts): jobs and their timers, of which each keeps the job that it was
--   made for. Timers is about sequences of calls and timers, Replaced about one call.
-- - Tests: runs on concrete inputs, and each theorem at an input that meets its hypotheses.
--
-- The registry, the queue and the mapper are fields of the orchestrator, which calls them only by their
-- operations; the coordinator calls back into the orchestrator. The channel key of the queue is the
-- task's channel session. The sanitizer uses the path validator and the command check of the tool
-- runtime, the tools for nodes use the node sessions and the validator, the communicator uses the node
-- sessions, and a cron job makes a task of the orchestrator.
--
-- Numbers are natural: times in milliseconds, sizes and counts, none of which the source makes negative;
-- where it subtracts from the clock the model adds on the other side. Clock readings, random ids,
-- the runtime's hash and the answers of the session manager and of tools are arguments. Objects that
-- the source shares and mutates are values here, read again where the source would see the change.
-- Two functions take fuel. For the executor's loop it is the number of calls of a tool that it may
-- still make. `enough` is the product of the two limits of recovery, each with one added: a call that
-- fails ends the run, or uses up one of the retries of its tool, or one of the alternatives of the
-- step, and a new tool has no more than all of its retries. For the check of an address, which calls
-- itself on the address inside another, it is one more than the length of the text, since the text
-- inside is shorter.
--
-- Not modelled: logging, traces, callbacks that fail, the sockets, chat services, language models,
-- browsers and the file system, which are input and output; the declarations of schemas, and the
-- translation of a schema for the package that checks it; the executor of nodes, the Claude Code
-- sessions, the configuration, the plans of the planner and the surfaces of approval. Regular
-- expressions, paths, hashes, dates, look-ups of names and parsed URLs are parameters of the
-- definitions that use them.
mod Prelude
pub mod JsMap
pub mod Task
pub mod Text
pub mod SsrfGuard
pub mod ProcessSessions
pub mod ToolRuntime
pub mod PathValidator
pub mod CommandSanitizer
pub mod Registry
pub mod ChannelQueue
pub mod SessionMapper
pub mod Orchestrator
mod Tests
pub mod RateLimiter
pub mod Gateway
pub mod SessionKey
pub mod SessionManager
pub mod Pairing
pub mod ApprovalStore
pub mod Replanner
pub mod CronManager
pub mod Executor
pub mod NodeSessions
pub mod NodesTool
pub mod NodeCommandValidator
pub mod NodeCommunicator
pub mod ApprovalFlow
