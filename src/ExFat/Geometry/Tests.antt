-- ===== src/ExFat/Geometry/Tests.antt =====
-- Runs of the exFAT geometry, and its theorems at concrete inputs.
use fsforge.Common.{◌*◌, ◌≡◌, refl}
use fsforge.ExFat.Geometry.{
  Geometry, ok, err, bad_size, too_small, shift_for, solve_length, compute_geometry,
}
use fsforge.ExFat.Geometry.Sound.{VolumePost, compute_geometry-VolumePost}

-- A volume of 8 MiB.
abbrev small_volume : Geometry
small_volume = record {
  total_sectors = 16384;
  spc_shift = 3;
  sec_per_clus = 8;
  fat_offset = 24;
  fat_length = 16;
  cluster_heap_start = 40;
  cluster_count = 2043;
}

computed :
    (compute_geometry (8192 * 1024) ≡ ok small_volume)
    × (compute_geometry 513 ≡ err bad_size)
    × (compute_geometry (20 * 512) ≡ err too_small)
unfolding compute_geometry shift_for solve_length
computed = (refl, refl, refl)

small_volume-VolumePost : VolumePost (8192 * 1024) (ok small_volume)
unfolding compute_geometry shift_for solve_length
small_volume-VolumePost = compute_geometry-VolumePost (8192 * 1024)

compute_geometry-VolumePost_example : VolumePost (8192 * 1024) (compute_geometry (8192 * 1024))
compute_geometry-VolumePost_example = compute_geometry-VolumePost (8192 * 1024)
