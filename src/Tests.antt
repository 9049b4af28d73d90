-- ===== src/Tests.antt =====
-- A server in memory, runs of the model on it, and the theorems at concrete inputs.
mod Memory
mod Keys
mod Server
mod Examples
mod Built
mod Statuses
mod Runs
mod Rounds
mod Steady
mod Responsive
mod Outcomes
mod Started
mod Ended
mod Validation
mod Copies
mod Copied
mod Quiescent
mod Sizes
