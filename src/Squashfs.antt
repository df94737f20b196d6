-- ===== src/Squashfs.antt =====
-- pkg/squashfs: the squashfs engine. Modelled: the superblock.
pub mod Superblock
