-- ===== src/Ext/Group.antt =====
-- pkg/ext/group.go: a group descriptor and its place in the descriptor table.
pub mod RoundTrip
use fsforge.Common.{
  ℕ, zero, suc, ◌+◌, ◌-◌, ◌*◌, ◌/◌, ◌%◌, ◌^◌, ◌≤◌, ◌<◌, ◌≡◌, ◌⊎◌, refl, ap, ◌∙◌, Bool, true, false,
  not, ◌&&◌, ◌||◌, ltb, leb, ◌==◌, if◌then◌else◌, Option, none, some, List, [], ◌∷◌, length,
  get_elem?, Bytes, slice, replicate, length-replicate, u64, u32, arith, Field, le, be, raw,
  put_fields, get_le, get_be, safe, get_le-put_fields, get_be-put_fields, slice-put_fields_raw,
  length-put_fields, field_off, field_width, avoids,
}

pub record GroupDesc : Type 0 where
  pub block_bitmap : ℕ
  pub inode_bitmap : ℕ
  pub inode_table : ℕ
  pub free_blocks : ℕ
  pub free_inodes : ℕ
  pub used_dirs : ℕ

-- The fields in the order in which they are written.
unfoldable pub fields : GroupDesc → List Field
fields s =
    le 0 4 s.block_bitmap
    ∷ le 4 4 s.inode_bitmap
    ∷ le 8 4 s.inode_table
    ∷ le 12 2 s.free_blocks
    ∷ le 14 2 s.free_inodes
    ∷ le 16 2 s.used_dirs
    ∷ []

-- What is written into the part of the table that begins at the descriptor.
unfoldable pub marshal_into : GroupDesc → Bytes → Bytes
marshal_into s b = put_fields (fields s) b

unfoldable pub parse_group_desc : Bytes → GroupDesc
parse_group_desc b = record {
  block_bitmap = get_le 4 0 b;
  inode_bitmap = get_le 4 4 b;
  inode_table = get_le 4 8 b;
  free_blocks = get_le 2 12 b;
  free_inodes = get_le 2 14 b;
  used_dirs = get_le 2 16 b;
}
