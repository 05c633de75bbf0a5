-- ===== src/Cli.antt =====
-- The command line client (cli/src): one child per source file.
pub mod Batch
pub mod Manifest
pub mod BlockIndex
pub mod Upload
pub mod Names
pub mod Verify
pub mod Main
