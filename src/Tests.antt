-- ===== src/Tests.antt =====
-- Runs on concrete inputs, and each theorem at an input that meets its hypotheses.
mod Components
mod Orchestration
mod Security
mod Approvals
mod Recovery
mod Nodes
mod Gateway
mod Cron
mod Sessions
mod Requests
mod Processes
mod Guard
mod Tools
