-- ===== src/Bytes.antt =====
-- Byte strings and the integers laid out in them: std::string::append of the bytes of an integer,
-- `readInt` of utils/Types.h, and `subpiece` of a string. A string is a list of numbers
-- below 256, and a w-bit integer is its bit pattern, a number below 2 ^ w. The machine is
-- little-endian, so the bytes of an integer in memory are its base-256 digits, lowest first.
pub mod Words
pub mod Pieces
pub mod Order
