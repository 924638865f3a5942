-- ===== src/World.antt =====
-- What every part of the service shares and does not implement: Postgres (migrations/*.up.sql), Redis,
-- the Kafka topic it writes, the clock, the source of UUIDs, and the other processes.
-- An operation is a function on the world. Each call out of the process takes one step: first the
-- other processes change the shared state, then the call is served, or fails without an effect, or
-- takes effect while its answer is lost. Nothing is assumed of this schedule unless a theorem says so.
pub mod Tables
mod Run
mod Actions
mod Rules
mod Yielding
mod Keeping
unfoldable pub use Run.*
pub use Actions.*
pub use Rules.*
pub use Keeping.*
pub use Yielding.*
