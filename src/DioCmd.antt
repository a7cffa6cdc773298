-- ===== src/DioCmd.antt =====
-- The command line tool wr-starting-kit/spec-sw/tools/wr-dio-cmd.c: its parsers, the commands that it
-- passes to the driver, and what it prints. Trace output and the texts of errors are left out.
pub mod State
pub mod Times
pub mod Modes
pub mod Inout
pub mod Commands
pub mod Safety
mod Tests
