-- ===== src/Erofs/Superblock/RoundTrip.antt =====
-- Parsing what `marshal` of the superblock wrote.
use fsforge.Common.{
  ℕ, ◌^◌, ◌<◌, ◌≡◌, refl, ap, true, false, not, ◌==◌, some, length, get_elem?, Bytes, slice,
  replicate, length-replicate, arith, le, raw, get_le, safe, get_le-put_fields,
  slice-put_fields_raw, field_off, field_width, avoids,
}
use fsforge.Erofs.Superblock.{
  Superblock, ok, superblock_size, magic, fields, marshal, parse_superblock,
}

-- Each field fits the width that the type gives it.
pub record IsFit (s : Superblock) : Type 0 where
  pub root_nid_fits : s.root_nid < 256 ^ 2
  pub inos_fits : s.inos < 256 ^ 8
  pub build_time_fits : s.build_time < 256 ^ 8
  pub build_nsec_fits : s.build_nsec < 256 ^ 4
  pub blocks_fits : s.blocks < 256 ^ 4
  pub meta_blkaddr_fits : s.meta_blkaddr < 256 ^ 4
  pub xattr_blkaddr_fits : s.xattr_blkaddr < 256 ^ 4
  pub uuid_fits : length s.uuid ≡ 16
  pub volume_name_fits : length s.volume_name ≡ 16

read_num :
    (s : Superblock) (i off w v : ℕ)
    → get_elem? (fields s) i ≡ some (le off w v)
    → safe superblock_size (fields s) i (some (le off w v)) ≡ true
    → v < 256 ^ w
    → get_le w off (marshal s) ≡ v
unfolding marshal
read_num s i off w v at_i clear small =
    get_le-put_fields superblock_size i off w v (fields s) (replicate superblock_size 0)
      (omega (arith, length-replicate {A = ℕ} superblock_size 0)) at_i clear small

read_raw :
    (s : Superblock) (i off w : ℕ) (p : Bytes)
    → get_elem? (fields s) i ≡ some (raw off w p)
    → safe superblock_size (fields s) i (some (raw off w p)) ≡ true
    → length p ≡ w
    → slice off w (marshal s) ≡ p
unfolding marshal
read_raw s i off w p at_i clear whole =
    slice-put_fields_raw superblock_size i off w p (fields s) (replicate superblock_size 0)
      (omega (arith, length-replicate {A = ℕ} superblock_size 0)) at_i clear whole

-- A superblock whose fields fit their widths is parsed back as it was from its 128 bytes.
pub parse_superblock-marshal_erofs :
    (s : Superblock) → IsFit s → parse_superblock (marshal s) ≡ ok s
unfolding parse_superblock fields safe field_off field_width avoids
parse_superblock-marshal_erofs s h =
    let m : get_le 4 0 (marshal s) ≡ magic = read_num s 0 0 4 magic refl refl (omega arith) in
    let t : not (get_le 4 0 (marshal s) == magic) ≡ false = ground (arith, m) in
    let same : record {
      root_nid = get_le 2 14 (marshal s);
      inos = get_le 8 16 (marshal s);
      build_time = get_le 8 24 (marshal s);
      build_nsec = get_le 4 32 (marshal s);
      blocks = get_le 4 36 (marshal s);
      meta_blkaddr = get_le 4 40 (marshal s);
      xattr_blkaddr = get_le 4 44 (marshal s);
      uuid = slice 48 16 (marshal s);
      volume_name = slice 64 16 (marshal s);
    }
        ≡ s =
      λ j. record {
        root_nid = read_num s 2 14 2 s.root_nid refl refl h.root_nid_fits j;
        inos = read_num s 3 16 8 s.inos refl refl h.inos_fits j;
        build_time = read_num s 4 24 8 s.build_time refl refl h.build_time_fits j;
        build_nsec = read_num s 5 32 4 s.build_nsec refl refl h.build_nsec_fits j;
        blocks = read_num s 6 36 4 s.blocks refl refl h.blocks_fits j;
        meta_blkaddr = read_num s 7 40 4 s.meta_blkaddr refl refl h.meta_blkaddr_fits j;
        xattr_blkaddr = read_num s 8 44 4 s.xattr_blkaddr refl refl h.xattr_blkaddr_fits j;
        uuid = read_raw s 9 48 16 s.uuid refl refl h.uuid_fits j;
        volume_name = read_raw s 10 64 16 s.volume_name refl refl h.volume_name_fits j;
      } in
    rw t (ap ok same)
