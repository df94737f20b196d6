-- ===== src/Cramfs.antt =====
-- pkg/cramfs: the cramfs engine. Modelled: the packed inode.
pub mod Inode
