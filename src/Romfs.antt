-- ===== src/Romfs.antt =====
-- pkg/romfs: the headers of a romfs image and its reader.
pub mod Header
pub mod Reader
