-- ===== src/Ext/Geometry/Tests.antt =====
-- Runs of the ext geometry, and its theorems at concrete inputs.
use fsforge.Common.{ℕ, ◌*◌, ◌≡◌, ◌⊎◌, ◌↔◌, refl, true, false, arith, map, [], ◌∷◌}
use fsforge.Ext.Geometry.{
  Geometry, ok, err, panic, too_small, bad_block_size, ceil_div, spread_inodes, derive,
  blocks_in_group, overhead, group_layout, has_superblock, is_power_of, settle, sane, initial,
  ones_count, compute_geometry,
}
use fsforge.Ext.Geometry.Requested.{ComputePost}
use fsforge.Ext.Geometry.Compute.{compute_geometry-ComputePost, compute_geometry_panics}
use fsforge.Ext.Geometry.Superblocks.{IsPower, has_superblock-IsPower}

-- 20 MiB in blocks of 1 KiB: three groups, the last one short.
abbrev small_disk : Geometry
small_disk = record {
  block_size = 1024;
  total_blocks = 20480;
  first_data_block = 1;
  blocks_per_group = 8192;
  inodes_per_group = 432;
  inode_size = 128;
  inodes_per_block = 8;
  inodes_count = 1296;
  num_groups = 3;
  gdt_blocks = 1;
  inode_table_blocks = 54;
}

computed :
    (compute_geometry (20480 * 1024) 0 0 ≡ ok small_disk)
    × (compute_geometry (20480 * 1024) 3000 0 ≡ err bad_block_size)
    × (compute_geometry (10 * 1024) 0 0 ≡ err too_small)
    × (compute_geometry 1024 0 0 ≡ panic)
    × (group_layout small_disk 1 ≡ (8195, 8196, 8197, 8251))
    × (map has_superblock (0 ∷ 1 ∷ 2 ∷ 9 ∷ 15 ∷ 49 ∷ [])
        ≡ true ∷ true ∷ false ∷ true ∷ false ∷ true ∷ [])
unfolding compute_geometry settle sane initial ones_count ceil_div spread_inodes derive overhead
    blocks_in_group group_layout has_superblock is_power_of
computed = (refl, refl, refl, refl, refl, refl)

small_disk-ComputePost : ComputePost (20480 * 1024) 1024 128 (ok small_disk)
unfolding compute_geometry settle sane initial ones_count ceil_div spread_inodes derive overhead
    blocks_in_group has_superblock is_power_of
small_disk-ComputePost = compute_geometry-ComputePost (20480 * 1024) 0 0 (omega arith) (omega arith)

compute_geometry_panics_example : compute_geometry 2047 0 0 ≡ panic
unfolding ones_count
compute_geometry_panics_example = compute_geometry_panics 2047 0 0 (omega arith) refl (omega arith)

-- 7 ^ 2
abbrev backup : ℕ
backup = 49

has_superblock-IsPower_example :
    (has_superblock backup ≡ true)
    ↔ ((backup ≡ 0) ⊎ IsPower 3 backup ⊎ IsPower 5 backup ⊎ IsPower 7 backup)
has_superblock-IsPower_example = has_superblock-IsPower backup
