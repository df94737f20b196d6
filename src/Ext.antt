-- ===== src/Ext.antt =====
-- pkg/ext: the ext2/3/4 engine. Modelled: the block group geometry, the superblock and the group
-- descriptors.
pub mod Geometry
pub mod Superblock
pub mod Group
pub mod Extents
