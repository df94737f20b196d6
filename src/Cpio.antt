-- ===== src/Cpio.antt =====
-- pkg/cpio: the newc archive engine. Modelled: the header, the reader, and the conversion of file modes, which
-- pkg/cramfs and pkg/erofs repeat.
pub mod Mode
pub mod Header
pub mod Reader
