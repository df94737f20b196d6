-- ===== src/ExFat.antt =====
-- pkg/exfat: the exFAT engine. Modelled: the geometry, the sums, the boot region and entry sets.
pub mod Geometry
pub mod Sums
pub mod Boot
pub mod Entries
pub mod Reader
