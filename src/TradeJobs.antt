-- ===== src/TradeJobs.antt =====
-- The trade jobs of src/trade-jobs: the state machine of a job, and the handlers of the service.
pub mod State
pub mod Dto
pub mod Create
pub mod Lawful
pub mod Onward
pub mod Cancel
pub mod Report
pub mod Poll
pub mod Listings
