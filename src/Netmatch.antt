-- ===== src/Netmatch.antt =====
-- internal/netmatch: which addresses are public (public.go), and the matcher of admin and trusted
-- entries (netmatch.go).
pub mod Ip
pub mod Parse
pub mod Public
pub mod Matcher
