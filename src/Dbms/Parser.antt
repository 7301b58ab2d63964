-- ===== src/Dbms/Parser.antt =====
-- server/dbms/parser.go: the recursive-descent parser.
pub mod Monad
pub mod Parts
pub mod Statements
pub mod Safe
pub mod Pieces
pub mod Total
