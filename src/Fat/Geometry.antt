-- ===== src/Fat/Geometry.antt =====
-- `computeGeometry` and the accessors of a geometry.
use fsforge.Common.{
  u64, ℕ, zero, suc, ◌+◌, ◌-◌, ◌*◌, ◌/◌, ◌%◌, ◌^◌, Bool, true, ◌||◌, ltb, leb, ◌==◌, if◌then◌else◌,
  Option, none, some, not,
}

pub data Error : Type 0 where
  bad_size too_small stuck : Error

-- Go's (value, error) pair. `err stuck` is no Go value: the solving loop ran out of fuel.
pub data Result {ℓ} (A : Type ℓ) : Type ℓ where
  ok : A → Result A
  err : Error → Result A

abbrev pub sector_size : ℕ
sector_size = 512

abbrev pub num_fats : ℕ
num_fats = 2

abbrev pub max_fat12_clusters : ℕ
max_fat12_clusters = 4084

abbrev pub max_fat16_clusters : ℕ
max_fat16_clusters = 65524

abbrev pub root_entries1216 : ℕ
root_entries1216 = 512

abbrev pub dir_entry_size : ℕ
dir_entry_size = 32

pub record Geometry : Type 0 where
  pub fat_bits : ℕ
  pub total_sectors : ℕ
  pub reserved_secs : ℕ
  pub sec_per_clus : ℕ
  pub fat_size_sectors : ℕ
  pub root_ent_count : ℕ
  pub root_dir_sectors : ℕ
  pub clusters : ℕ
  pub data_start_sec : ℕ

unfoldable pub pick_sec_per_clus16 : ℕ → ℕ
pick_sec_per_clus16 total =
    if leb total 32680
    then 2
    else if leb total 262144
    then 4
    else if leb total 524288
    then 8
    else 16

unfoldable pub fat32_sec_per_clus : ℕ → ℕ
fat32_sec_per_clus total = if leb total 532480 then 1 else if leb total 16777216 then 8 else 32

-- The switch on `forceBits`: the FAT type and the sectors per cluster.
unfoldable pub choose_type : ℕ → ℕ → ℕ × ℕ
unfolding pick_sec_per_clus16 fat32_sec_per_clus
choose_type force total =
    if force == 12
    then (12, 1)
    else if force == 16
    then (16, pick_sec_per_clus16 total)
    else if force == 32
    then (32, fat32_sec_per_clus total)
    else if ltb total 8400
    then (12, 1)
    else if ltb total 1048576
    then (16, pick_sec_per_clus16 total)
    else (32, fat32_sec_per_clus total)

abbrev pub reserved_for : ℕ → ℕ
reserved_for bits = if bits == 32 then 32 else 1

abbrev pub root_entries_for : ℕ → ℕ
root_entries_for bits = if bits == 32 then 0 else root_entries1216

abbrev pub root_dir_for : ℕ → ℕ
root_dir_for bits = (root_entries_for bits * dir_entry_size + sector_size - 1) / sector_size

-- `usable / secPerClus` of the loop, for a FAT of `fat_size` sectors.
abbrev pub clusters_for : ℕ → ℕ → ℕ → ℕ → ℕ
clusters_for total fixed spc fat_size = (total + u64 - fixed - num_fats * fat_size) % u64 / spc

abbrev pub need_secs : ℕ → ℕ → ℕ
need_secs bits clusters = (((clusters + 2) * bits + 7) / 8 + sector_size - 1) / sector_size

-- The loop that grows the FAT: its size in sectors and the number of clusters.
unfoldable pub solve_fat : ℕ → ℕ → ℕ → ℕ → ℕ → ℕ → Option (ℕ × ℕ)
solve_fat zero total fixed bits spc fat_size = none
solve_fat (suc fuel) total fixed bits spc fat_size =
    let clusters = clusters_for total fixed spc fat_size in
    let need = need_secs bits clusters in
    let rest = solve_fat fuel total fixed bits spc need in
    if leb need fat_size then some (fat_size, clusters) else rest

-- `validate`: whether the cluster count fits the FAT type.
unfoldable pub validate : ℕ → ℕ → Bool
validate bits clusters =
    if bits == 12
    then not (ltb clusters 1 || ltb max_fat12_clusters clusters)
    else if bits == 16
    then not (leb clusters max_fat12_clusters || ltb max_fat16_clusters clusters)
    else if bits == 32
    then not (leb clusters max_fat16_clusters)
    else true

abbrev pub finish : ℕ → ℕ → ℕ → Option (ℕ × ℕ) → Result Geometry
finish total bits spc none = err stuck
finish total bits spc (some (fat_size, clusters)) =
    if validate bits clusters
    then ok (record {
      fat_bits = bits;
      total_sectors = total;
      reserved_secs = reserved_for bits;
      sec_per_clus = spc;
      fat_size_sectors = fat_size;
      root_ent_count = root_entries_for bits;
      root_dir_sectors = root_dir_for bits;
      clusters = clusters;
      data_start_sec = reserved_for bits + num_fats * fat_size + root_dir_for bits;
    })
    else err too_small

unfoldable pub layout_for : ℕ → ℕ → ℕ → Result Geometry
unfolding solve_fat validate
layout_for total bits spc =
    if ltb total (reserved_for bits + root_dir_for bits + num_fats + 8)
    then err too_small
    else finish total bits spc
        (solve_fat 2 total (reserved_for bits + root_dir_for bits) bits spc 1)

unfoldable pub compute_geometry : ℕ → ℕ → Result Geometry
unfolding choose_type layout_for
compute_geometry dev_size force =
    let total = dev_size / sector_size in
    let (bits, spc) = choose_type force total in
    if dev_size == 0 || not (dev_size % sector_size == 0)
    then err bad_size
    else layout_for total bits spc

unfoldable pub cluster_size_bytes : Geometry → ℕ
cluster_size_bytes g = g.sec_per_clus * sector_size

-- `uint64(cluster-2)` of a uint32.
unfoldable pub cluster_sector : Geometry → ℕ → ℕ
cluster_sector g cluster = g.data_start_sec + (cluster + 2 ^ 32 - 2) % 2 ^ 32 * g.sec_per_clus

unfoldable pub root_region_sector : Geometry → ℕ
root_region_sector g = g.reserved_secs + num_fats * g.fat_size_sectors

unfoldable pub eoc : Geometry → ℕ
eoc g = if g.fat_bits == 12 then 0xfff else if g.fat_bits == 16 then 0xffff else 0xfffffff
