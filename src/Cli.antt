-- ===== src/Cli.antt =====
-- The command line of next-loggers (src/cli): its flag tables and its argument parser.
pub mod Text
pub mod Spec
pub mod Tables
pub mod Scope
pub mod Argv
pub mod Flags
