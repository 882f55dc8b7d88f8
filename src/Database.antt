-- ===== src/Database.antt =====
-- The queries of DBRecord/DBoperate.c: what each reads, and the code that it returns.
pub mod Records
pub mod Cleared
pub mod Rows
pub mod Readers
pub mod AccountReaders
pub mod Backend
pub mod Fetch
pub mod Lists
pub mod Arrays
pub mod PolicySearch
pub mod Password
pub mod Climb
pub mod Sample
mod Tests
