-- ===== src/Cramfs/Inode.antt =====
-- pkg/cramfs/inode.go: an inode of three little-endian words, its fields packed into them.
pub mod RoundTrip
use fsforge.Common.{
  ℕ, zero, suc, ◌+◌, ◌-◌, ◌*◌, ◌/◌, ◌%◌, ◌^◌, ◌≤◌, ◌<◌, ◌≡◌, ◌⊎◌, refl, ap, ◌∙◌, Bool, true, false,
  not, ◌&&◌, ◌||◌, ltb, leb, ◌==◌, if◌then◌else◌, Option, none, some, List, [], ◌∷◌, length,
  get_elem?, Bytes, slice, replicate, length-replicate, u64, u32, arith, Field, le, be, raw,
  put_fields, get_le, get_be, safe, get_le-put_fields, get_be-put_fields, slice-put_fields_raw,
  length-put_fields, field_off, field_width, avoids,
}

abbrev pub inode_size : ℕ
inode_size = 12

-- `namelen` and `offset` count units of four bytes.
pub record Cinode : Type 0 where
  pub mode : ℕ
  pub uid : ℕ
  pub size : ℕ
  pub gid : ℕ
  pub namelen : ℕ
  pub offset : ℕ

-- A mask of the low bits is a remainder, and the fields of a word have no bit in common.
unfoldable pub fields : Cinode → List Field
fields s =
    le 0 4 (s.mode % 65536 + s.uid % 65536 * 65536)
    ∷ le 4 4 (s.size % 16777216 + s.gid % 256 * 16777216)
    ∷ le 8 4 (s.namelen % 64 + s.offset % 67108864 * 64)
    ∷ []

unfoldable pub marshal : Cinode → Bytes
marshal s = put_fields (fields s) (replicate inode_size 0)

unfoldable pub parse_inode : Bytes → Cinode
parse_inode b = record {
  mode = get_le 4 0 b % 65536;
  uid = get_le 4 0 b / 65536;
  size = get_le 4 4 b % 16777216;
  gid = get_le 4 4 b / 16777216;
  namelen = get_le 4 8 b % 64;
  offset = get_le 4 8 b / 64;
}
