-- ===== src/Campaign.antt =====
-- internal/campaign/group.go: how sessions and campaigns are joined.
pub mod Redirect
pub mod Aliases
pub mod Sessions
pub mod Majority
