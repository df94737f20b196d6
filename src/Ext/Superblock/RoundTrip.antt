-- ===== src/Ext/Superblock/RoundTrip.antt =====
-- Parsing what `marshal` of the ext superblock wrote.
use fsforge.Common.{
  ℕ, ◌^◌, ◌<◌, ◌≡◌, refl, true, some, length, get_elem?, Bytes, slice, replicate, length-replicate,
  arith, le, raw, get_le, safe, get_le-put_fields, slice-put_fields_raw, field_off, field_width,
  avoids,
}
use fsforge.Ext.Superblock.{Superblock, superblock_size, fields, marshal, parse_superblock}

-- Each field fits the width that the type gives it.
pub record IsFit (s : Superblock) : Type 0 where
  pub inodes_count_fits : s.inodes_count < 256 ^ 4
  pub blocks_count_fits : s.blocks_count < 256 ^ 4
  pub r_blocks_count_fits : s.r_blocks_count < 256 ^ 4
  pub free_blocks_count_fits : s.free_blocks_count < 256 ^ 4
  pub free_inodes_count_fits : s.free_inodes_count < 256 ^ 4
  pub first_data_block_fits : s.first_data_block < 256 ^ 4
  pub log_block_size_fits : s.log_block_size < 256 ^ 4
  pub log_frag_size_fits : s.log_frag_size < 256 ^ 4
  pub blocks_per_group_fits : s.blocks_per_group < 256 ^ 4
  pub frags_per_group_fits : s.frags_per_group < 256 ^ 4
  pub inodes_per_group_fits : s.inodes_per_group < 256 ^ 4
  pub mtime_fits : s.mtime < 256 ^ 4
  pub wtime_fits : s.wtime < 256 ^ 4
  pub magic_fits : s.magic < 256 ^ 2
  pub state_fits : s.state < 256 ^ 2
  pub errors_fits : s.errors < 256 ^ 2
  pub rev_level_fits : s.rev_level < 256 ^ 4
  pub first_ino_fits : s.first_ino < 256 ^ 4
  pub inode_size_fits : s.inode_size < 256 ^ 2
  pub block_group_nr_fits : s.block_group_nr < 256 ^ 2
  pub feature_compat_fits : s.feature_compat < 256 ^ 4
  pub feature_incompat_fits : s.feature_incompat < 256 ^ 4
  pub feature_ro_compat_fits : s.feature_ro_compat < 256 ^ 4
  pub uuid_fits : length s.uuid ≡ 16
  pub volume_name_fits : length s.volume_name ≡ 16

read_num :
    (s : Superblock) (i off w v : ℕ)
    → get_elem? (fields s) i ≡ some (le off w v)
    → safe superblock_size (fields s) i (some (le off w v)) ≡ true
    → v < 256 ^ w
    → get_le w off (marshal s) ≡ v
unfolding marshal
read_num s i off w v at_i clear small =
    get_le-put_fields superblock_size i off w v (fields s) (replicate superblock_size 0)
      (omega (arith, length-replicate {A = ℕ} superblock_size 0)) at_i clear small

read_raw :
    (s : Superblock) (i off w : ℕ) (p : Bytes)
    → get_elem? (fields s) i ≡ some (raw off w p)
    → safe superblock_size (fields s) i (some (raw off w p)) ≡ true
    → length p ≡ w
    → slice off w (marshal s) ≡ p
unfolding marshal
read_raw s i off w p at_i clear whole =
    slice-put_fields_raw superblock_size i off w p (fields s) (replicate superblock_size 0)
      (omega (arith, length-replicate {A = ℕ} superblock_size 0)) at_i clear whole

-- The superblock as parsing returns it: without the two sizes of the extra inode space.
abbrev pub without_extra : Superblock → Superblock
without_extra s = record s { min_extra_isize = 0; want_extra_isize = 0 }

-- A superblock whose fields fit their widths is parsed back from its 1024 bytes with every field it had,
-- but for the two sizes of the extra inode space, which come back as 0.
pub parse_superblock-marshal_ext :
    (s : Superblock) → IsFit s → parse_superblock (marshal s) ≡ without_extra s
unfolding parse_superblock fields safe field_off field_width avoids
parse_superblock-marshal_ext s h = λ j. record {
  inodes_count = read_num s 0 0 4 s.inodes_count refl refl h.inodes_count_fits j;
  blocks_count = read_num s 1 4 4 s.blocks_count refl refl h.blocks_count_fits j;
  r_blocks_count = read_num s 2 8 4 s.r_blocks_count refl refl h.r_blocks_count_fits j;
  free_blocks_count = read_num s 3 12 4 s.free_blocks_count refl refl h.free_blocks_count_fits j;
  free_inodes_count = read_num s 4 16 4 s.free_inodes_count refl refl h.free_inodes_count_fits j;
  first_data_block = read_num s 5 20 4 s.first_data_block refl refl h.first_data_block_fits j;
  log_block_size = read_num s 6 24 4 s.log_block_size refl refl h.log_block_size_fits j;
  log_frag_size = read_num s 7 28 4 s.log_frag_size refl refl h.log_frag_size_fits j;
  blocks_per_group = read_num s 8 32 4 s.blocks_per_group refl refl h.blocks_per_group_fits j;
  frags_per_group = read_num s 9 36 4 s.frags_per_group refl refl h.frags_per_group_fits j;
  inodes_per_group = read_num s 10 40 4 s.inodes_per_group refl refl h.inodes_per_group_fits j;
  mtime = read_num s 11 44 4 s.mtime refl refl h.mtime_fits j;
  wtime = read_num s 12 48 4 s.wtime refl refl h.wtime_fits j;
  magic = read_num s 15 56 2 s.magic refl refl h.magic_fits j;
  state = read_num s 16 58 2 s.state refl refl h.state_fits j;
  errors = read_num s 17 60 2 s.errors refl refl h.errors_fits j;
  rev_level = read_num s 22 76 4 s.rev_level refl refl h.rev_level_fits j;
  first_ino = read_num s 25 84 4 s.first_ino refl refl h.first_ino_fits j;
  inode_size = read_num s 26 88 2 s.inode_size refl refl h.inode_size_fits j;
  block_group_nr = read_num s 27 90 2 s.block_group_nr refl refl h.block_group_nr_fits j;
  feature_compat = read_num s 28 92 4 s.feature_compat refl refl h.feature_compat_fits j;
  feature_incompat = read_num s 29 96 4 s.feature_incompat refl refl h.feature_incompat_fits j;
  feature_ro_compat = read_num s 30 100 4 s.feature_ro_compat refl refl h.feature_ro_compat_fits j;
  uuid = read_raw s 31 104 16 s.uuid refl refl h.uuid_fits j;
  volume_name = read_raw s 32 120 16 s.volume_name refl refl h.volume_name_fits j;
  min_extra_isize = 0;
  want_extra_isize = 0;
}
