-- ===== src/Shell.antt =====
-- c-shell: the interactive shell.
pub mod Lexer
pub mod Parser
pub mod Pipeline
pub mod Jobs
pub mod Outputs
pub mod Events
pub mod Peek
pub mod Hop
pub mod Resume
mod Tests
