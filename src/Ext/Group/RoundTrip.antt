-- ===== src/Ext/Group/RoundTrip.antt =====
-- Parsing what `marshalInto` of a group descriptor wrote.
use fsforge.Common.{
  ℕ, ◌^◌, ◌≤◌, ◌<◌, ◌≡◌, refl, true, some, length, get_elem?, Bytes, le, get_le, safe,
  get_le-put_fields, field_off, field_width, avoids,
}
use fsforge.Ext.Group.{GroupDesc, fields, marshal_into, parse_group_desc}

-- Each field fits the width that the type gives it.
pub record IsFit (s : GroupDesc) : Type 0 where
  pub block_bitmap_fits : s.block_bitmap < 256 ^ 4
  pub inode_bitmap_fits : s.inode_bitmap < 256 ^ 4
  pub inode_table_fits : s.inode_table < 256 ^ 4
  pub free_blocks_fits : s.free_blocks < 256 ^ 2
  pub free_inodes_fits : s.free_inodes < 256 ^ 2
  pub used_dirs_fits : s.used_dirs < 256 ^ 2

read_num :
    (s : GroupDesc) (t : Bytes) (i off w v : ℕ)
    → 32 ≤ length t
    → get_elem? (fields s) i ≡ some (le off w v)
    → safe 32 (fields s) i (some (le off w v)) ≡ true
    → v < 256 ^ w
    → get_le w off (marshal_into s t) ≡ v
unfolding marshal_into
read_num s t i off w v room at_i clear small =
    get_le-put_fields 32 i off w v (fields s) t room at_i clear small

-- A group descriptor whose fields fit their widths is parsed back from a table, of 32 bytes at least,
-- that it was written into.
pub parse_group_desc-marshal_into :
    (s : GroupDesc) (t : Bytes) → IsFit s → 32 ≤ length t → parse_group_desc (marshal_into s t) ≡ s
unfolding parse_group_desc fields safe field_off field_width avoids
parse_group_desc-marshal_into s t h room = λ j. record {
  block_bitmap = read_num s t 0 0 4 s.block_bitmap room refl refl h.block_bitmap_fits j;
  inode_bitmap = read_num s t 1 4 4 s.inode_bitmap room refl refl h.inode_bitmap_fits j;
  inode_table = read_num s t 2 8 4 s.inode_table room refl refl h.inode_table_fits j;
  free_blocks = read_num s t 3 12 2 s.free_blocks room refl refl h.free_blocks_fits j;
  free_inodes = read_num s t 4 14 2 s.free_inodes room refl refl h.free_inodes_fits j;
  used_dirs = read_num s t 5 16 2 s.used_dirs room refl refl h.used_dirs_fits j;
}
