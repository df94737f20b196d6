-- ===== src/Squashfs/Superblock/RoundTrip.antt =====
-- Parsing what `marshal` of the superblock wrote.
use fsforge.Common.{
  ℕ, ◌^◌, ◌<◌, ◌≡◌, refl, ap, true, false, not, ◌==◌, some, get_elem?, replicate, length-replicate,
  arith, le, get_le, safe, get_le-put_fields, field_off, field_width, avoids,
}
use fsforge.Squashfs.Superblock.{
  Superblock, ok, superblock_size, magic, fields, marshal, parse_superblock,
}

-- Each field fits the width that the type gives it.
pub record IsFit (s : Superblock) : Type 0 where
  pub inodes_fits : s.inodes < 256 ^ 4
  pub mkfs_time_fits : s.mkfs_time < 256 ^ 4
  pub block_size_fits : s.block_size < 256 ^ 4
  pub fragments_fits : s.fragments < 256 ^ 4
  pub compression_fits : s.compression < 256 ^ 2
  pub block_log_fits : s.block_log < 256 ^ 2
  pub flags_fits : s.flags < 256 ^ 2
  pub no_ids_fits : s.no_ids < 256 ^ 2
  pub root_inode_fits : s.root_inode < 256 ^ 8
  pub bytes_used_fits : s.bytes_used < 256 ^ 8
  pub id_table_start_fits : s.id_table_start < 256 ^ 8
  pub xattr_table_start_fits : s.xattr_table_start < 256 ^ 8
  pub inode_table_start_fits : s.inode_table_start < 256 ^ 8
  pub dir_table_start_fits : s.dir_table_start < 256 ^ 8
  pub frag_table_start_fits : s.frag_table_start < 256 ^ 8
  pub lookup_table_start_fits : s.lookup_table_start < 256 ^ 8

read_num :
    (s : Superblock) (i off w v : ℕ)
    → get_elem? (fields s) i ≡ some (le off w v)
    → safe superblock_size (fields s) i (some (le off w v)) ≡ true
    → v < 256 ^ w
    → get_le w off (marshal s) ≡ v
unfolding marshal
read_num s i off w v at_i clear small =
    get_le-put_fields superblock_size i off w v (fields s) (replicate superblock_size 0)
      (omega (arith, length-replicate {A = ℕ} superblock_size 0)) at_i clear small

-- A superblock whose fields fit their widths is parsed back as it was from its 96 bytes.
pub parse_superblock-marshal_squashfs :
    (s : Superblock) → IsFit s → parse_superblock (marshal s) ≡ ok s
unfolding parse_superblock fields safe field_off field_width avoids
parse_superblock-marshal_squashfs s h =
    let m : get_le 4 0 (marshal s) ≡ magic = read_num s 0 0 4 magic refl refl (omega arith) in
    let t : not (get_le 4 0 (marshal s) == magic) ≡ false = ground (arith, m) in
    let same : record {
      inodes = get_le 4 4 (marshal s);
      mkfs_time = get_le 4 8 (marshal s);
      block_size = get_le 4 12 (marshal s);
      fragments = get_le 4 16 (marshal s);
      compression = get_le 2 20 (marshal s);
      block_log = get_le 2 22 (marshal s);
      flags = get_le 2 24 (marshal s);
      no_ids = get_le 2 26 (marshal s);
      root_inode = get_le 8 32 (marshal s);
      bytes_used = get_le 8 40 (marshal s);
      id_table_start = get_le 8 48 (marshal s);
      xattr_table_start = get_le 8 56 (marshal s);
      inode_table_start = get_le 8 64 (marshal s);
      dir_table_start = get_le 8 72 (marshal s);
      frag_table_start = get_le 8 80 (marshal s);
      lookup_table_start = get_le 8 88 (marshal s);
    }
        ≡ s =
      λ j. record {
        inodes = read_num s 1 4 4 s.inodes refl refl h.inodes_fits j;
        mkfs_time = read_num s 2 8 4 s.mkfs_time refl refl h.mkfs_time_fits j;
        block_size = read_num s 3 12 4 s.block_size refl refl h.block_size_fits j;
        fragments = read_num s 4 16 4 s.fragments refl refl h.fragments_fits j;
        compression = read_num s 5 20 2 s.compression refl refl h.compression_fits j;
        block_log = read_num s 6 22 2 s.block_log refl refl h.block_log_fits j;
        flags = read_num s 7 24 2 s.flags refl refl h.flags_fits j;
        no_ids = read_num s 8 26 2 s.no_ids refl refl h.no_ids_fits j;
        root_inode = read_num s 11 32 8 s.root_inode refl refl h.root_inode_fits j;
        bytes_used = read_num s 12 40 8 s.bytes_used refl refl h.bytes_used_fits j;
        id_table_start = read_num s 13 48 8 s.id_table_start refl refl h.id_table_start_fits j;
        xattr_table_start =
            read_num s 14 56 8 s.xattr_table_start refl refl h.xattr_table_start_fits j;
        inode_table_start =
            read_num s 15 64 8 s.inode_table_start refl refl h.inode_table_start_fits j;
        dir_table_start = read_num s 16 72 8 s.dir_table_start refl refl h.dir_table_start_fits j;
        frag_table_start =
            read_num s 17 80 8 s.frag_table_start refl refl h.frag_table_start_fits j;
        lookup_table_start =
            read_num s 18 88 8 s.lookup_table_start refl refl h.lookup_table_start_fits j;
      } in
    rw t (ap ok same)
