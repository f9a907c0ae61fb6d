-- ===== src/Store/Refetch.antt =====
-- internal/store/refetch.go: the schedule on which a URL that served a payload is fetched again.
pub mod Schedule
pub mod Table
pub mod Checks
pub mod Claim
pub mod Complete
pub mod Leases
pub mod Purge
pub mod Keys
