-- ===== src/Shell/Tests.antt =====
-- The parts of the shell on concrete lines, tables and events.
mod Syntax
mod Table
