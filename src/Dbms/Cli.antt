-- ===== src/Dbms/Cli.antt =====
-- server/dbms/internal/cli/cli.go: statements are read from the input, executed, and shown.
pub mod Reading
pub mod Printing
pub mod Running
pub mod Framing
pub mod Exits
pub mod Numbers
mod Tests
