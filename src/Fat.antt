-- ===== src/Fat.antt =====
-- pkg/fat/geometry.go: the layout of a FAT12, FAT16 or FAT32 volume.
-- Sector counts are uint64 values; the subtraction of the solving loop is written with its wrap. A
-- device size is a natural number, so Go's negative sizes, which are refused as 0 is, have no case.
pub mod Geometry
pub mod Solve
pub mod Sound
pub mod Table
pub mod Packed
pub mod Names
mod Tests
