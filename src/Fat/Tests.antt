-- ===== src/Fat/Tests.antt =====
-- Runs of the FAT geometry, and its theorems at concrete inputs.
use fsforge.Common.{◌*◌, ◌≡◌, refl, arith}
use fsforge.Fat.Geometry.{
  Geometry, ok, err, bad_size, too_small, compute_geometry, cluster_sector, eoc,
}
use fsforge.Fat.Sound.{GeometryPost, compute_geometry-GeometryPost}

-- A floppy disk of 1440 KiB.
abbrev floppy : Geometry
floppy = record {
  fat_bits = 12;
  total_sectors = 2880;
  reserved_secs = 1;
  sec_per_clus = 1;
  fat_size_sectors = 9;
  root_ent_count = 512;
  root_dir_sectors = 32;
  clusters = 2829;
  data_start_sec = 51;
}

computed :
    (compute_geometry (1440 * 1024) 0 ≡ ok floppy)
    × (compute_geometry 1000 0 ≡ err bad_size)
    × (compute_geometry 512 0 ≡ err too_small)
    × (compute_geometry (1440 * 1024) 16 ≡ err too_small)
    × (cluster_sector floppy 3 ≡ 52)
    × (eoc floppy ≡ 0xfff)
unfolding compute_geometry cluster_sector eoc
computed = (refl, refl, refl, refl, refl, refl)

floppy-GeometryPost : GeometryPost (1440 * 1024) 0 (ok floppy)
unfolding compute_geometry
floppy-GeometryPost = compute_geometry-GeometryPost (1440 * 1024) 0 (omega arith)
