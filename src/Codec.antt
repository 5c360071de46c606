-- ===== src/Codec.antt =====
-- The rows of tags and edges as bytes: src/codec/RowWriterV2.h and .cpp and RowReaderV2.cpp.
pub mod Schema
pub mod Buffer
pub mod Bits
pub mod Cells
pub mod Writer
pub mod Finish
pub mod Reader
pub mod IntLaws
pub mod CellLaws
pub mod Layout
pub mod Held
pub mod Frame
pub mod Marks
pub mod Writes
pub mod SetValue
pub mod Spill
pub mod Joined
pub mod Kept
pub mod Moved
pub mod Relocate
pub mod Closed
pub mod Rows
pub mod Total
mod Tests
