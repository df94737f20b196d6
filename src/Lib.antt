-- ===== src/Lib.antt =====
-- fsforge: formatting and reading file system images without privileges.
--
-- The program is a set of engines over shared parts. A device (pkg/device) is a fixed number of bytes that
-- is read and written at offsets; a section is a window onto one, and partition tables (pkg/partition)
-- hand such windows out. An engine lays a file tree out on a device: it computes a geometry from the
-- device's size (pkg/fat, pkg/ext, pkg/exfat), takes blocks from an allocator (pkg/alloc), and writes
-- records of fixed-width fields that its reader parses back. An archive engine (pkg/cpio) turns the tree
-- into one stream and back; a container (pkg/qcow2) maps a disk to the clusters of a file.
--
-- Which file models what:
-- - Common: list, byte-slice and field lemmas; no code of the program. Common.Fields says when a field
--   that was written at an offset is read back, and every record below uses it.
-- - Alloc: pkg/alloc/bitmap.go, `Bitmap` and its operations `Alloc`, `AllocUpTo`, `Free`, `Reserve`.
--   A word of 64 bits is a list of Booleans; sums of block numbers wrap at 2^64 where the code's do.
-- - AllocRuns: pkg/alloc/alloc.go, the interface `Allocator` (with the optional `AllocUpTo`) as a record
--   with laws, `AllocRuns` and `allocAtMost` over any such allocator, and the bitmap as an instance.
-- - Device: pkg/device/device.go, mem.go and section.go. An offset is below 2^63 or negative, and a sum
--   that passes 2^63 is compared as the negative number that it is.
-- - Modes: io/fs.FileMode, as Booleans and permissions.
-- - Image: pkg/image/mem.go and name.go, the editable tree with pkg/tree's metadata. Nodes stand in a
--   store and entries name their places, so that a hard link is two entries of one node. Image.Sessions
--   is the editing as a step relation: any calls, in any order, through the handles that calls gave out.
-- - Partition: pkg/partition, `FormatGPT` (Partition.Gpt) and `FormatMBR` (Partition.Mbr).
-- - Fat, ExFat, Ext.Geometry: the `computeGeometry` functions of pkg/fat/geometry.go,
--   pkg/exfat/geometry.go and pkg/ext/geometry.go, with their accessors.
-- - Fat.Table, Fat.Packed, Fat.Names: pkg/fat/fat.go and dir.go: cluster chains and the contents of files,
--   the table on the disk, and names and directory entries.
-- - ExFat.Sums, ExFat.Boot, ExFat.Entries, ExFat.Reader: pkg/exfat/boot.go and dir.go, and the entry sets
--   of a file in exfat.go and reader.go, written and read.
-- - Ext.Superblock, Ext.Group, Ext.Extents: pkg/ext/superblock.go, group.go and extents.go.
-- - Squashfs.Superblock, Erofs.Superblock, Qcow2.Header, Cramfs.Inode: superblock.go of pkg/squashfs and
--   of pkg/erofs, header.go of pkg/qcow2, inode.go of pkg/cramfs.
-- - Qcow2.Writer: `NewWriter`, `WriteAt` and `ReadAt` of pkg/qcow2/writer.go, over a host file.
-- - Romfs: pkg/romfs/header.go and const.go, and the reader of pkg/romfs/reader.go.
-- - Cpio: the header of pkg/cpio/header.go, the reader of pkg/cpio/reader.go, which builds a tree, and the
--   file modes, which pkg/cramfs and pkg/erofs repeat.
--
-- Go's (value, error) is a result type of each component, with `panic` where a division by zero, a slice
-- out of range or an index can stop the program. Numbers are natural numbers; a width is written out
-- where a value can reach it, and each file says which bounds it rests on.
--
-- A record is parsed from a slice that is as long as the record: on a shorter one, which Go's accessors
-- refuse with a panic and no caller passes, the definitions read zeros.
--
-- Loops that are not over a list run on fuel and say `stuck` without it. `Alloc` has fuel for each
-- block and one more, since each round starts at a later one; `AllocRuns` for each block wanted,
-- since each round takes one; the FAT loops of pkg/fat and pkg/exfat have two rounds; the loop of
-- pkg/ext that drops a runt group has a round for each group; the writers of pkg/qcow2 and of
-- clusters in pkg/fat have fuel for each byte; the reader of pkg/cpio has a round for each byte of
-- its device and one more. The theorems give results without a case for `stuck`, so this fuel is
-- enough. For the walk of an extent tree and for the reader of pkg/romfs no amount is enough on
-- every image.
--
-- Arguments of the definitions stand for code of other origin: the CRC of hash/crc32, the encoder of
-- unicode/utf16, the disk's GUID, the host file of a QCOW2 image, and the block reader and writer under
-- the extent trees. The conversions of strconv and the fixed-width integers of encoding/binary are
-- written out.
--
-- Not modelled: the directory and data layout of the engines above the parts named here, pkg/iso, pkg/udf,
-- pkg/mtree and pkg/oci, the writers of pkg/cpio and pkg/romfs, the QCOW2 reader and
-- `Finalize`, compression, the command line, the registry client and host files. The last three are
-- input and output.
pub mod Common
pub mod Device
pub mod Partition
pub mod Alloc
pub mod AllocRuns
pub mod Fat
pub mod Ext
pub mod ExFat
pub mod Squashfs
pub mod Erofs
pub mod Qcow2
pub mod Cramfs
pub mod Cpio
pub mod Modes
pub mod Image
pub mod Romfs
