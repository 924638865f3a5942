-- ===== src/Invariant.antt =====
-- The invariant of the tables and the history of a row, the operations against both, and what is
-- assumed of the other processes that write to the same tables.
pub mod Rows
pub mod History
pub mod WellFormed
pub mod Statements
pub mod Completion
pub mod Reading
pub mod Operations
pub mod Atomicity
pub mod Freeze
pub mod Optimistic
pub mod Configuring
pub mod Guarded
pub mod Methods
pub mod Applying
pub mod Publishing
pub mod Consuming
pub mod Framing
pub mod Idempotence
pub mod Traces
