-- ===== src/Oracle.antt =====
-- OracleProxy/oraclefilter.c: the commands that a client sends in the Oracle protocol.
pub mod Result
pub mod Strings
pub mod Pieces
pub mod Places
pub mod Query
pub mod Session
pub mod Request
pub mod Rounds
pub mod Marked
pub mod Spoiled
pub mod Recorded
pub mod Address
pub mod Redirect
pub mod Rewritten
pub mod Relayed
pub mod Conn
pub mod Times
pub mod Cell
pub mod Numeral
pub mod Groups
pub mod Number
pub mod Begins
pub mod Printed
pub mod Dates
pub mod DateText
pub mod Filled
pub mod Fractions
pub mod Ack
pub mod AckText
mod Tests
mod CellTests
