-- ===== src/Script.antt =====
-- internal/script: a session's script as a text and as commands, how far apart two scripts are, and the
-- SSH public keys that a command writes.
pub mod Encoding
pub mod Commands
pub mod Distance
pub mod Key
pub mod Linking
