-- ===== src/AccessManager.antt =====
-- The prioritised access to the boiler's API
-- (custom_components/hdg_boiler/helpers/api_access_manager.py). Each function is what the event
-- loop runs between two places where a coroutine waits.
mod Queue
mod State
mod Submit
mod WorkerLoop
pub mod Events
pub mod Lost
pub mod Invariant
pub mod Tracked
pub mod Sorted
pub mod Order
pub mod Retry
pub mod Sharing
mod Examples
unfoldable pub use Queue.*
unfoldable pub use State.*
unfoldable pub use Submit.*
unfoldable pub use WorkerLoop.*
