-- ===== src/Encoding.antt =====
-- kmiputil/src/Encoding.cpp: hexadecimal and Base64. A character is its code.
pub mod Hex
pub mod Base64
pub mod Table
pub mod Groups
pub mod Inverse
pub mod Runs
