-- ===== src/Ext/Superblock.antt =====
-- pkg/ext/superblock.go: the superblock and its 1024 bytes.
pub mod RoundTrip
use fsforge.Common.{
  ℕ, zero, suc, ◌+◌, ◌-◌, ◌*◌, ◌/◌, ◌%◌, ◌^◌, ◌≤◌, ◌<◌, ◌≡◌, ◌⊎◌, refl, ap, ◌∙◌, Bool, true, false,
  not, ◌&&◌, ◌||◌, ltb, leb, ◌==◌, if◌then◌else◌, Option, none, some, List, [], ◌∷◌, length,
  get_elem?, Bytes, slice, replicate, length-replicate, u64, u32, arith, Field, le, be, raw,
  put_fields, get_le, get_be, safe, get_le-put_fields, get_be-put_fields, slice-put_fields_raw,
  length-put_fields, field_off, field_width, avoids,
}

abbrev pub superblock_size : ℕ
superblock_size = 1024

pub record Superblock : Type 0 where
  pub inodes_count : ℕ
  pub blocks_count : ℕ
  pub r_blocks_count : ℕ
  pub free_blocks_count : ℕ
  pub free_inodes_count : ℕ
  pub first_data_block : ℕ
  pub log_block_size : ℕ
  pub log_frag_size : ℕ
  pub blocks_per_group : ℕ
  pub frags_per_group : ℕ
  pub inodes_per_group : ℕ
  pub mtime : ℕ
  pub wtime : ℕ
  pub magic : ℕ
  pub state : ℕ
  pub errors : ℕ
  pub rev_level : ℕ
  pub first_ino : ℕ
  pub inode_size : ℕ
  pub block_group_nr : ℕ
  pub feature_compat : ℕ
  pub feature_incompat : ℕ
  pub feature_ro_compat : ℕ
  pub uuid : Bytes
  pub volume_name : Bytes
  pub min_extra_isize : ℕ
  pub want_extra_isize : ℕ

-- The fields in the order in which they are written.
unfoldable pub fields : Superblock → List Field
fields s =
    le 0 4 s.inodes_count
    ∷ le 4 4 s.blocks_count
    ∷ le 8 4 s.r_blocks_count
    ∷ le 12 4 s.free_blocks_count
    ∷ le 16 4 s.free_inodes_count
    ∷ le 20 4 s.first_data_block
    ∷ le 24 4 s.log_block_size
    ∷ le 28 4 s.log_frag_size
    ∷ le 32 4 s.blocks_per_group
    ∷ le 36 4 s.frags_per_group
    ∷ le 40 4 s.inodes_per_group
    ∷ le 44 4 s.mtime
    ∷ le 48 4 s.wtime
    ∷ le 52 2 0
    ∷ le 54 2 65535
    ∷ le 56 2 s.magic
    ∷ le 58 2 s.state
    ∷ le 60 2 s.errors
    ∷ le 62 2 0
    ∷ le 64 4 s.wtime
    ∷ le 68 4 0
    ∷ le 72 4 0
    ∷ le 76 4 s.rev_level
    ∷ le 80 2 0
    ∷ le 82 2 0
    ∷ le 84 4 s.first_ino
    ∷ le 88 2 s.inode_size
    ∷ le 90 2 s.block_group_nr
    ∷ le 92 4 s.feature_compat
    ∷ le 96 4 s.feature_incompat
    ∷ le 100 4 s.feature_ro_compat
    ∷ raw 104 16 s.uuid
    ∷ raw 120 16 s.volume_name
    ∷ le 348 2 s.min_extra_isize
    ∷ le 350 2 s.want_extra_isize
    ∷ []

unfoldable pub marshal : Superblock → Bytes
marshal s = put_fields (fields s) (replicate superblock_size 0)

-- The two fields that the code does not read stay 0.
unfoldable pub parse_superblock : Bytes → Superblock
parse_superblock b = record {
  inodes_count = get_le 4 0 b;
  blocks_count = get_le 4 4 b;
  r_blocks_count = get_le 4 8 b;
  free_blocks_count = get_le 4 12 b;
  free_inodes_count = get_le 4 16 b;
  first_data_block = get_le 4 20 b;
  log_block_size = get_le 4 24 b;
  log_frag_size = get_le 4 28 b;
  blocks_per_group = get_le 4 32 b;
  frags_per_group = get_le 4 36 b;
  inodes_per_group = get_le 4 40 b;
  mtime = get_le 4 44 b;
  wtime = get_le 4 48 b;
  magic = get_le 2 56 b;
  state = get_le 2 58 b;
  errors = get_le 2 60 b;
  rev_level = get_le 4 76 b;
  first_ino = get_le 4 84 b;
  inode_size = get_le 2 88 b;
  block_group_nr = get_le 2 90 b;
  feature_compat = get_le 4 92 b;
  feature_incompat = get_le 4 96 b;
  feature_ro_compat = get_le 4 100 b;
  uuid = slice 104 16 b;
  volume_name = slice 120 16 b;
  min_extra_isize = 0;
  want_extra_isize = 0;
}

unfoldable pub block_size : Superblock → ℕ
block_size s = 1024 * 2 ^ s.log_block_size % u32
