-- ===== src/Cli.antt =====
-- src/cli: the commands whose decisions are modelled.
pub mod Cleanup
pub mod Validate
