-- ===== src/ExFat/Boot.antt =====
-- pkg/exfat/boot.go: the boot region of 12 sectors, which is written twice. The disk's serial, from
-- `UUID`, is an argument. On a geometry without clusters, which computeGeometry does not give, Go's
-- division for the percentage panics.
mod Valid
mod Written
mod Tests
use fsforge.Common.{
  ℕ, zero, suc, ◌+◌, ◌*◌, ◌/◌, Option, none, some, List, [], ◌∷◌, ◌++◌, take, replicate, Bytes,
  overwrite, le_bytes, Field, le, raw, put_fields,
}
use fsforge.Device.{Device, WriteResult, wrote, write_panic, at}
use fsforge.ExFat.Geometry.{Geometry, bytes_per_sector}
use fsforge.ExFat.Sums.{boot_checksum}

abbrev pub bytes_per_sector_shift : ℕ
bytes_per_sector_shift = 9

-- "EXFAT   "
abbrev pub fs_name : Bytes
fs_name = 69 ∷ 88 ∷ 70 ∷ 65 ∷ 84 ∷ 32 ∷ 32 ∷ 32 ∷ []

-- Sector 0. What the layouter adds to the geometry: the root's cluster, the serial, the clusters in use.
unfoldable pub boot_fields : Geometry → ℕ → ℕ → ℕ → List Field
boot_fields g root_first serial used =
    raw 0 3 (0xeb ∷ 0x76 ∷ 0x90 ∷ [])
    ∷ raw 3 8 fs_name
    ∷ le 64 8 0
    ∷ le 72 8 g.total_sectors
    ∷ le 80 4 g.fat_offset
    ∷ le 84 4 g.fat_length
    ∷ le 88 4 g.cluster_heap_start
    ∷ le 92 4 g.cluster_count
    ∷ le 96 4 root_first
    ∷ le 100 4 serial
    ∷ le 104 2 0x100
    ∷ le 106 2 0
    ∷ le 108 1 bytes_per_sector_shift
    ∷ le 109 1 g.spc_shift
    ∷ le 110 1 1
    ∷ le 111 1 0x80
    ∷ le 112 1 (used * 100 / g.cluster_count)
    ∷ raw 510 2 (0x55 ∷ 0xaa ∷ [])
    ∷ []

-- The signatures of `n` extended boot sectors, from sector `s` on.
unfoldable pub extended : ℕ → ℕ → List Field
extended zero s = []
extended (suc n) s =
    raw (s * bytes_per_sector + 508) 4 (0 ∷ 0 ∷ 0x55 ∷ 0xaa ∷ []) ∷ extended n (s + 1)

-- The sum, `n` times.
unfoldable pub sum_words : ℕ → ℕ → Bytes
sum_words zero sum = []
sum_words (suc n) sum = le_bytes 4 sum ++ sum_words n sum

-- Sectors 0 to 10, with sector 11 still empty.
unfoldable pub boot_sectors : Geometry → ℕ → ℕ → ℕ → Bytes
boot_sectors g root_first serial used =
    put_fields (extended 8 1)
      (put_fields (boot_fields g root_first serial used) (replicate (12 * bytes_per_sector) 0))

unfoldable pub boot_region : Geometry → ℕ → ℕ → ℕ → Bytes
boot_region g root_first serial used =
    let region = boot_sectors g root_first serial used in
    let sum = boot_checksum (take (11 * bytes_per_sector) region) in
    overwrite (11 * bytes_per_sector) (sum_words (bytes_per_sector / 4) sum) region

-- The main region, then the backup; the first error ends it.
module _ {D : Type 0} (d : Device D) where
  abbrev pub after_main : Bytes → WriteResult D → WriteResult D
  after_main region write_panic = write_panic
  after_main region (wrote y n (some e)) = wrote y n (some e)
  after_main region (wrote y n none) = d.write_at y region (at (12 * bytes_per_sector))

  unfoldable pub write_boot : D → Bytes → WriteResult D
  write_boot x region = after_main region (d.write_at x region (at 0))
