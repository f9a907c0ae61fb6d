-- ===== src/Tests.antt =====
-- The properties at concrete inputs, and runs of the definitions.
mod Gates
mod Vetting
mod Leasing
mod Refetching
mod Joining
mod Electing
mod Scripts
mod Capturing
mod Archiving
mod Watching
mod Sharing
mod Playbooks
