-- ===== src/Erofs/Superblock.antt =====
-- pkg/erofs/superblock.go: the superblock and its 128 bytes.
pub mod RoundTrip
use fsforge.Common.{
  ℕ, zero, suc, ◌+◌, ◌-◌, ◌*◌, ◌/◌, ◌%◌, ◌^◌, ◌≤◌, ◌<◌, ◌≡◌, ◌⊎◌, refl, ap, ◌∙◌, Bool, true, false,
  not, ◌&&◌, ◌||◌, ltb, leb, ◌==◌, if◌then◌else◌, Option, none, some, List, [], ◌∷◌, length,
  get_elem?, Bytes, slice, replicate, length-replicate, u64, u32, arith, Field, le, be, raw,
  put_fields, get_le, get_be, safe, get_le-put_fields, get_be-put_fields, slice-put_fields_raw,
  length-put_fields, field_off, field_width, avoids,
}

abbrev pub magic : ℕ
magic = 3774210530

abbrev pub blk_size_bits : ℕ
blk_size_bits = 12

abbrev pub superblock_size : ℕ
superblock_size = 128

pub record Superblock : Type 0 where
  pub root_nid : ℕ
  pub inos : ℕ
  pub build_time : ℕ
  pub build_nsec : ℕ
  pub blocks : ℕ
  pub meta_blkaddr : ℕ
  pub xattr_blkaddr : ℕ
  pub uuid : Bytes
  pub volume_name : Bytes

pub data Error : Type 0 where
  bad_magic : Error

pub data Result : Type 0 where
  ok : Superblock → Result
  err : Error → Result

-- The fields in the order in which they are written.
unfoldable pub fields : Superblock → List Field
fields s =
    le 0 4 magic
    ∷ le 12 1 blk_size_bits
    ∷ le 14 2 s.root_nid
    ∷ le 16 8 s.inos
    ∷ le 24 8 s.build_time
    ∷ le 32 4 s.build_nsec
    ∷ le 36 4 s.blocks
    ∷ le 40 4 s.meta_blkaddr
    ∷ le 44 4 s.xattr_blkaddr
    ∷ raw 48 16 s.uuid
    ∷ raw 64 16 s.volume_name
    ∷ []

unfoldable pub marshal : Superblock → Bytes
marshal s = put_fields (fields s) (replicate superblock_size 0)

unfoldable pub parse_superblock : Bytes → Result
parse_superblock b =
    if not (get_le 4 0 b == magic)
    then err bad_magic
    else ok (record {
      root_nid = get_le 2 14 b;
      inos = get_le 8 16 b;
      build_time = get_le 8 24 b;
      build_nsec = get_le 4 32 b;
      blocks = get_le 4 36 b;
      meta_blkaddr = get_le 4 40 b;
      xattr_blkaddr = get_le 4 44 b;
      uuid = slice 48 16 b;
      volume_name = slice 64 16 b;
    })
