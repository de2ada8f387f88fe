-- ===== src/Tests.antt =====
-- The theorems at concrete inputs, and runs of the code.
mod Fixtures
mod Http
mod Locking
mod Values
mod Sessions
mod Writing
mod Answers
mod Opening
mod BulkCalls
mod Runs
mod Recording
