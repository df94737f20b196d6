-- ===== src/ExFat/Boot/Tests.antt =====
-- A boot region at concrete inputs, and its theorem there.
use fsforge.Common.{ℕ, ◌*◌, ◌≡◌, refl, [], ◌∷◌, length-replicate, overwrite, le_bytes, arith}
use fsforge.Device.{Mem, mem_device, new_mem, wrote}
use mathlib.Core.Option.{none}
use fsforge.ExFat.Geometry.{Geometry}
use fsforge.ExFat.Sums.{boot_checksum, set_checksum, name_hash}
use fsforge.ExFat.Boot.{boot_region, write_boot}
use fsforge.ExFat.Boot.Valid.{IsValid}
use fsforge.ExFat.Boot.Written.{Copies, write_boot-Copies}

-- The geometry of a volume of 8 MiB.
abbrev volume : Geometry
volume = record {
  total_sectors = 16384;
  spc_shift = 3;
  sec_per_clus = 8;
  fat_offset = 24;
  fat_length = 16;
  cluster_heap_start = 40;
  cluster_count = 2043;
}

-- A byte is rotated to the right as the next one comes; the bytes at 2 and 3 do not count for a set.
summed :
    (boot_checksum (1 ∷ 2 ∷ []) ≡ 0x80000002)
    × (set_checksum (1 ∷ 2 ∷ 9 ∷ 9 ∷ 4 ∷ []) ≡ 0x4005)
    × (name_hash (97 ∷ 98 ∷ 99 ∷ []) ≡ name_hash (65 ∷ 66 ∷ 67 ∷ []))
unfolding boot_checksum set_checksum name_hash fsforge.ExFat.Sums.sum_from
    fsforge.ExFat.Sums.sum_step fsforge.ExFat.Sums.rotate_add fsforge.ExFat.Sums.hash_from
    fsforge.ExFat.Sums.upcase_rune
summed = (refl, refl, refl)

abbrev disk : Mem
disk = new_mem (24 * 512)

write_boot-Copies_example :
    (m' : Mem) × (write_boot mem_device disk (boot_region volume 5 7 12) ≡ wrote m' 6144 none)
    × Copies (boot_region volume 5 7 12) disk m'
    × IsValid (boot_region volume 5 7 12)
    × ((flags percent : ℕ)
        → IsValid (
            overwrite 112
              (le_bytes 1 percent)
              (overwrite 106 (le_bytes 2 flags) (boot_region volume 5 7 12))))
unfolding new_mem
write_boot-Copies_example =
    write_boot-Copies volume 5 7 12 disk (omega (arith, length-replicate {A = ℕ} 12288 0))
      (omega (arith, length-replicate {A = ℕ} 12288 0))
