-- ===== src/RequestCollection.antt =====
-- cthulhu/cthulhu/manager/request_collection.py: the requests by their ids, and the index from the
-- ids of running jobs to requests. `Index` has the state and `_update_index`, `Timed` what the
-- clock and the users trigger, `Completion` what salt and the cluster maps trigger.
mod Index
mod Timed
mod Completion
pub mod Local
pub mod Sound
pub mod Submitted
pub mod Safety
pub mod Maps
pub mod Jobs
pub mod Reachable
pub mod Failing
pub mod Cancelling
pub mod Submitting
pub mod Waiting
pub mod Stale
unfoldable pub use Index.*
unfoldable pub use Timed.*
unfoldable pub use Completion.*
