-- ===== src/Dbms.antt =====
-- server/dbms: the in-memory SQL executor.
pub mod Outcome
pub mod Action
pub mod Value
pub mod Lexer
pub mod Number
pub mod Statement
pub mod Parser
pub mod Table
pub mod Database
pub mod Frame
pub mod Service
pub mod Session
pub mod Server
pub mod Cli
mod Tests
