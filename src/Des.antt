-- ===== src/Des.antt =====
-- The password cipher of DBRecord/datasafe.h: DES of a block, its use for texts in hexadecimal
-- digits, and the blocks of a password.
pub mod Tables
pub mod Blocks
pub mod Bits
pub mod Bytes
pub mod Feistel
pub mod Hex
pub mod Single
pub mod Triple
pub mod Password
pub mod Strings
pub mod Padding
pub mod RoundTrip
pub mod Blocked
pub mod Loss
mod Tests
