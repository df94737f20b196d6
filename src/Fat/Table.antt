-- ===== src/Fat/Table.antt =====
-- pkg/fat/fat.go: the file allocation table. `layouter` holds it in memory, takes cluster chains from
-- it and follows them to write; `writeFATs` packs it for the disk.
-- A cluster number is a uint32 and wraps at 2^32; the number of clusters is a uint64. An index out of the
-- table, where Go panics, writes nothing here; it does not occur where `IsTable` holds.
pub mod Chains
pub mod Content
mod Tests
use fsforge.Common.{
  u32, u64, ℕ, zero, suc, ◌+◌, ◌-◌, ◌*◌, ◌/◌, ◌%◌, Bool, true, false, ◌||◌, ltb, leb, ◌==◌,
  if◌then◌else◌, Option, none, some, List, [], ◌∷◌, ◌++◌, length, get_or, set, take, drop,
  replicate, Bytes,
}
use fsforge.Fat.Geometry.{Geometry, eoc, cluster_size_bytes}

pub record Layouter : Type 0 where
  pub geo : Geometry
  pub fat : List ℕ
  pub next_free : ℕ
  pub used_clusters : ℕ

pub data Error : Type 0 where
  out_of_clusters read_failed : Error

pub data Result (A : Type 0) : Type 0 where
  ok : A → Result A
  err : Error → Result A

abbrev pub root_cluster : ℕ
root_cluster = 2

abbrev pub media_byte : ℕ
media_byte = 0xf8

-- The table that Finalize begins with. `& eoc()` is the remainder by eoc + 1, which is a power of two.
unfoldable pub start : Geometry → Layouter
unfolding eoc
start g = record {
  geo = g;
  fat = (0xfffff00 + media_byte) % (eoc g + 1) ∷ eoc g ∷ replicate g.clusters 0;
  next_free = root_cluster;
  used_clusters = 0;
}

-- The loop that links `n` clusters from `c` on.
unfoldable pub link_chain : ℕ → ℕ → ℕ → List ℕ → List ℕ
link_chain last c zero fat = fat
link_chain last c (suc zero) fat = set fat c last
link_chain last c (suc (suc n)) fat =
    link_chain last ((c + 1) % u32) (suc n) (set fat c ((c + 1) % u32))

-- The first cluster of a chain of `n` clusters, 0 for none.
unfoldable pub alloc_chain : ℕ → Layouter → Result ℕ × Layouter
alloc_chain n l =
    if n == 0
    then (ok 0, l)
    else if ltb l.geo.clusters ((l.next_free + u64 - 2 + n) % u64)
    then (err out_of_clusters, l)
    else (
      ok l.next_free,
      record l {
        fat = link_chain (eoc l.geo) l.next_free n l.fat;
        next_free = (l.next_free + n) % u32;
        used_clusters = (l.used_clusters + n) % u64;
      },
    )

-- The writes of `writeClusters`: which cluster gets which bytes, as far as the chain goes. The loop has
-- fuel for each byte.
unfoldable pub cluster_writes : ℕ → ℕ → ℕ → List ℕ → ℕ → Bytes → List (ℕ × Bytes)
cluster_writes zero cs last fat clus bytes = []
cluster_writes (suc fuel) cs last fat clus [] = []
cluster_writes (suc fuel) cs last fat clus (x ∷ bytes) =
    let next = get_or fat clus 0 in
    let rest = cluster_writes fuel cs last fat next (drop cs (x ∷ bytes)) in
    (clus, take cs (x ∷ bytes)) ∷ (if leb last next || next == 0 then [] else rest)

unfoldable pub write_clusters : Layouter → ℕ → Bytes → List (ℕ × Bytes)
write_clusters l first bytes =
    cluster_writes (length bytes) (cluster_size_bytes l.geo) (eoc l.geo) l.fat first bytes

-- A node's `Content`: the buffer of `Size()` bytes as `ReadAt` leaves it, zeros where it gave fewer, and
-- whether it gave an error other than the end of the file.
pub record FileContent : Type 0 where
  pub bytes : Bytes
  pub fails : Bool

abbrev pub bytes_of : Option FileContent → Bytes
bytes_of none = []
bytes_of (some c) = c.bytes

abbrev pub read_fails : Option FileContent → Bool
read_fails none = false
read_fails (some c) = c.fails

-- The part of `layoutFile` once its clusters are taken, or were refused.
abbrev pub filed :
    Bytes → Bool → ℕ → ℕ → Result ℕ × Layouter → Result (ℕ × ℕ) × Layouter × List (ℕ × Bytes)
filed bytes fails clusters cs (err e, l) = (err e, l, [])
filed bytes fails clusters cs (ok first, l) =
    let size = length bytes in
    if size == 0
    then (ok (first, size % u32), l, [])
    else if fails
    then (err read_failed, l, [])
    else (
      ok (first, size % u32),
      l,
      write_clusters l first (bytes ++ replicate (clusters * cs - size) 0),
    )

-- `layoutFile`: the first cluster, the size as a uint32, and the writes. `none` is a node without
-- contents; the contents are read whole, with zeros behind them to the end of the last cluster.
unfoldable pub layout_file :
    Option FileContent → Layouter → Result (ℕ × ℕ) × Layouter × List (ℕ × Bytes)
layout_file c l =
    let size = length (bytes_of c) in
    let cs = cluster_size_bytes l.geo in
    let clusters = (size + cs - 1) / cs in
    filed (bytes_of c) (read_fails c) clusters cs (alloc_chain clusters l)
