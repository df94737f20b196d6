-- ===== src/Squashfs/Superblock.antt =====
-- pkg/squashfs/superblock.go: the superblock and its 96 bytes, and the inode reference.
pub mod RoundTrip
use fsforge.Common.{
  ℕ, zero, suc, ◌+◌, ◌-◌, ◌*◌, ◌/◌, ◌%◌, ◌^◌, ◌≤◌, ◌<◌, ◌≡◌, ◌⊎◌, refl, ap, ◌∙◌, Bool, true, false,
  not, ◌&&◌, ◌||◌, ltb, leb, ◌==◌, if◌then◌else◌, Option, none, some, List, [], ◌∷◌, length,
  get_elem?, Bytes, slice, replicate, length-replicate, u64, u32, arith, Field, le, be, raw,
  put_fields, get_le, get_be, safe, get_le-put_fields, get_be-put_fields, slice-put_fields_raw,
  length-put_fields, field_off, field_width, avoids,
}

abbrev pub magic : ℕ
magic = 1936814952

abbrev pub superblock_size : ℕ
superblock_size = 96

pub record Superblock : Type 0 where
  pub inodes : ℕ
  pub mkfs_time : ℕ
  pub block_size : ℕ
  pub fragments : ℕ
  pub compression : ℕ
  pub block_log : ℕ
  pub flags : ℕ
  pub no_ids : ℕ
  pub root_inode : ℕ
  pub bytes_used : ℕ
  pub id_table_start : ℕ
  pub xattr_table_start : ℕ
  pub inode_table_start : ℕ
  pub dir_table_start : ℕ
  pub frag_table_start : ℕ
  pub lookup_table_start : ℕ

pub data Error : Type 0 where
  bad_magic : Error

pub data Result : Type 0 where
  ok : Superblock → Result
  err : Error → Result

-- The fields in the order in which they are written.
unfoldable pub fields : Superblock → List Field
fields s =
    le 0 4 magic
    ∷ le 4 4 s.inodes
    ∷ le 8 4 s.mkfs_time
    ∷ le 12 4 s.block_size
    ∷ le 16 4 s.fragments
    ∷ le 20 2 s.compression
    ∷ le 22 2 s.block_log
    ∷ le 24 2 s.flags
    ∷ le 26 2 s.no_ids
    ∷ le 28 2 4
    ∷ le 30 2 0
    ∷ le 32 8 s.root_inode
    ∷ le 40 8 s.bytes_used
    ∷ le 48 8 s.id_table_start
    ∷ le 56 8 s.xattr_table_start
    ∷ le 64 8 s.inode_table_start
    ∷ le 72 8 s.dir_table_start
    ∷ le 80 8 s.frag_table_start
    ∷ le 88 8 s.lookup_table_start
    ∷ []

unfoldable pub marshal : Superblock → Bytes
marshal s = put_fields (fields s) (replicate superblock_size 0)

unfoldable pub parse_superblock : Bytes → Result
parse_superblock b =
    if not (get_le 4 0 b == magic)
    then err bad_magic
    else ok (record {
      inodes = get_le 4 4 b;
      mkfs_time = get_le 4 8 b;
      block_size = get_le 4 12 b;
      fragments = get_le 4 16 b;
      compression = get_le 2 20 b;
      block_log = get_le 2 22 b;
      flags = get_le 2 24 b;
      no_ids = get_le 2 26 b;
      root_inode = get_le 8 32 b;
      bytes_used = get_le 8 40 b;
      id_table_start = get_le 8 48 b;
      xattr_table_start = get_le 8 56 b;
      inode_table_start = get_le 8 64 b;
      dir_table_start = get_le 8 72 b;
      frag_table_start = get_le 8 80 b;
      lookup_table_start = get_le 8 88 b;
    })

-- `blockStart<<16 | offset`, for a 16-bit offset.
unfoldable pub inode_ref : ℕ → ℕ → ℕ
inode_ref block_start offset = block_start * 65536 + offset
