-- ===== src/Qcow2.antt =====
-- pkg/qcow2: the QCOW2 container. Modelled: the header, and reading and writing through the writer.
pub mod Header
pub mod Writer
