-- ===== src/Intel.antt =====
-- internal/intel: the gates that decide what may leave the host, one for each receiving service,
-- and the classification of hosts that two of them share.
pub mod Host
pub mod Options
pub mod Url
pub mod Abuseipdb
pub mod Bazaar
pub mod Urlhaus
pub mod Threatfox
