-- ===== src/ExFat/Geometry.antt =====
-- pkg/exfat/geometry.go: the layout of an exFAT volume. Sizes are natural numbers, and the sums and
-- products stay below 2^64 for devices below 2^63 bytes.
pub mod Sound
mod Tests
use fsforge.Common.{
  u32, ℕ, zero, suc, ◌+◌, ◌-◌, ◌*◌, ◌/◌, ◌%◌, ◌^◌, Bool, true, false, ◌||◌, not, ltb, leb, ◌==◌,
  if◌then◌else◌,
}

pub data Error : Type 0 where
  bad_size too_small stuck : Error

-- Go's (value, error) pair. `err stuck` is no Go value: the solving loop ran out of fuel.
pub data Result {ℓ} (A : Type ℓ) : Type ℓ where
  ok : A → Result A
  err : Error → Result A

abbrev pub bytes_per_sector : ℕ
bytes_per_sector = 512

abbrev pub boot_region_sectors : ℕ
boot_region_sectors = 24

pub record Geometry : Type 0 where
  pub total_sectors : ℕ
  pub spc_shift : ℕ
  pub sec_per_clus : ℕ
  pub fat_offset : ℕ
  pub fat_length : ℕ
  pub cluster_heap_start : ℕ
  pub cluster_count : ℕ

-- `(v + to - 1) / to * to`
abbrev pub align : ℕ → ℕ → ℕ
align v to = (v + to - 1) / to * to

unfoldable pub shift_for : ℕ → ℕ
shift_for total = if leb total (2 ^ 20) then 3 else if leb total (2 ^ 24) then 6 else 8

-- What a round of the loop computes from the FAT length.
abbrev pub heap_for : ℕ → ℕ → ℕ
heap_for spc fat_length = align (boot_region_sectors + fat_length) spc

abbrev pub count_for : ℕ → ℕ → ℕ → ℕ
count_for total spc fat_length = (total - heap_for spc fat_length) / spc

abbrev pub secs_for : ℕ → ℕ
secs_for count = align ((count + 2) * 4) bytes_per_sector / bytes_per_sector

-- The loop: the FAT length for which the FAT has an entry for each cluster.
unfoldable pub solve_length : ℕ → ℕ → ℕ → ℕ → Result ℕ
solve_length zero total spc fat_length = err stuck
solve_length (suc fuel) total spc fat_length =
    let need = secs_for (count_for total spc fat_length) in
    let rest = solve_length fuel total spc need in
    if leb total (heap_for spc fat_length)
    then err too_small
    else if leb need fat_length
    then ok fat_length
    else rest

abbrev pub finish : ℕ → ℕ → Result ℕ → Result Geometry
finish total shift (err e) = err e
finish total shift (ok fat_length) =
    if ltb (count_for total (2 ^ shift) fat_length) 1
    then err too_small
    else ok (record {
      total_sectors = total;
      spc_shift = shift;
      sec_per_clus = 2 ^ shift;
      fat_offset = boot_region_sectors;
      fat_length = fat_length;
      cluster_heap_start = heap_for (2 ^ shift) fat_length;
      cluster_count = count_for total (2 ^ shift) fat_length;
    })

unfoldable pub compute_geometry : ℕ → Result Geometry
compute_geometry dev_size =
    let total = dev_size / bytes_per_sector in
    let shift = shift_for total in
    if dev_size == 0 || not (dev_size % bytes_per_sector == 0)
    then err bad_size
    else finish total shift (solve_length 2 total (2 ^ shift) 1)

unfoldable pub cluster_bytes : Geometry → ℕ
cluster_bytes g = g.sec_per_clus * bytes_per_sector

-- `uint64(cluster-2)` of a uint32.
unfoldable pub cluster_sector : Geometry → ℕ → ℕ
cluster_sector g cluster = g.cluster_heap_start + (cluster + u32 - 2) % u32 * g.sec_per_clus
