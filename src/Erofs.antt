-- ===== src/Erofs.antt =====
-- pkg/erofs: the EROFS engine. Modelled: the superblock.
pub mod Superblock
