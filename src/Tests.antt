-- ===== src/Tests.antt =====
-- Runs on concrete inputs, and the theorems at concrete inputs.
mod Toy
mod Slots
mod Gaps
mod Writes
mod Blocks
mod Processing
mod Batches
mod Pipelines
mod Boots
mod Streams
mod Failures
mod Starts
mod Shutdowns
mod Accounts
