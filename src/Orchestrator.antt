-- ===== src/Orchestrator.antt =====
-- TaskOrchestrator (src/orchestrator/TaskOrchestrator.ts) with its ApprovalFlowCoordinator
-- (src/orchestrator/ApprovalFlowCoordinator.ts), by synchronous parts: what runs between two awaits
-- is one function. `State` has the state and the outputs, `Channel` the work on one channel,
-- `Approvals` the coordinator, `Tasks` the public calls and the steps.
pub mod State
pub mod Channel
pub mod Approvals
pub mod Tasks
pub mod Lifecycle
pub mod Serial
pub mod Abort
pub mod Sequential
pub mod Creation
pub mod Settling
pub mod Decisions
pub mod Denial
