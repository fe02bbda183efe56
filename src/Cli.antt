-- ===== src/Cli.antt =====
-- btdt-cli: the command line.
pub mod Hashing
pub mod Command
pub mod Clean
mod Tests
