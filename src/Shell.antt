-- ===== src/Shell.antt =====
-- 2-shell: how the shell reads a command line.
pub mod Parsing
pub mod Lines
pub mod Exec
pub mod Builtins
mod Tests
mod ExecTests
