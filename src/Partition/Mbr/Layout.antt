-- ===== src/Partition/Mbr/Layout.antt =====
-- The partitions that `FormatMBR` makes.
use fsforge.Common.{
  ℕ, ◌+◌, ◌/◌, ◌%◌, ◌^◌, ◌≤◌, ◌<◌, ◌≡◌, ◌⊎◌, inr, not, true, false, ltb, ◌==◌, arith, List, [], ◌∷◌,
  length, u64,
}
use fsforge.Partition.{
  Result, ok, err, panic, fill_not_last, disk_too_small, no_specs, bad_disk_size,
  too_many_primaries, device_error, sector_size, align_sectors, align, Partition,
}
use fsforge.Partition.Mbr.{MbrSpec, Table, fill_table, build_mbr, primary, secs_of, remaining}

-- The partitions of `specs` from LBA `cur` on, on a disk of `total` sectors: a sized one lies on the
-- disk and has the sectors its size needs; the filling one begins behind the others, and ends with the
-- disk unless it begins at the disk's end or behind it.
pub data IsPlaced (total : ℕ) : ℕ → List MbrSpec → List Partition → Type 0 where
  done : {cur : ℕ} → IsPlaced total cur [] []
  fill :
      {cur : ℕ} {s : MbrSpec} {p : Partition}
      → s.size ≡ 0
      → cur ≤ p.start_lba
      → p.start_lba % align_sectors ≡ 0
      → (total ≤ p.start_lba) ⊎ ((p.start_lba ≤ p.end_lba) × (p.end_lba + 1 ≡ total))
      → IsPlaced total cur (s ∷ []) (p ∷ [])
  sized :
      {cur : ℕ} {s : MbrSpec} {ss : List MbrSpec} {p : Partition} {ps : List Partition}
      → 0 < s.size
      → cur ≤ p.start_lba
      → p.start_lba % align_sectors ≡ 0
      → p.start_lba + secs_of s ≡ p.end_lba + 1
      → p.end_lba < total
      → IsPlaced total (p.end_lba + 1) ss ps
      → IsPlaced total cur (s ∷ ss) (p ∷ ps)

-- A spec that fills stands before another one.
pub data FillsEarly : List MbrSpec → Type 0 where
  here : {s s' : MbrSpec} {ss : List MbrSpec} → s.size ≡ 0 → FillsEarly (s ∷ s' ∷ ss)
  later : {s : MbrSpec} {ss : List MbrSpec} → FillsEarly ss → FillsEarly (s ∷ ss)

-- A sized spec ends past the disk.
pub data Overflows (total : ℕ) : ℕ → List MbrSpec → Type 0 where
  no_room :
      {cur : ℕ} {s : MbrSpec} {ss : List MbrSpec}
      → 0 < s.size
      → total < align cur align_sectors + secs_of s
      → Overflows total cur (s ∷ ss)
  behind :
      {cur : ℕ} {s : MbrSpec} {ss : List MbrSpec}
      → Overflows total (align cur align_sectors + secs_of s) ss
      → Overflows total cur (s ∷ ss)

abbrev pub FillPost : ℕ → ℕ → List MbrSpec → Result Table → Type 0
FillPost total cur specs (ok t) = IsPlaced total cur specs t.parts
FillPost total cur specs (err fill_not_last) = FillsEarly specs
FillPost total cur specs (err disk_too_small) = Overflows total cur specs
FillPost total cur specs _ = ⊥

abbrev pub MbrPost : ℕ → List MbrSpec → Result Table → Type 0
MbrPost dev_size specs (err no_specs) = specs ≡ []
MbrPost dev_size specs (err too_many_primaries) = 4 < length specs
MbrPost dev_size specs (err bad_disk_size) = 0 < dev_size % sector_size
MbrPost dev_size specs (err disk_too_small) =
    (dev_size / sector_size < align_sectors + align_sectors)
    ⊎ Overflows (dev_size / sector_size) align_sectors specs
MbrPost dev_size specs r =
    (dev_size % sector_size ≡ 0)
    × (length specs ≤ 4)
    × FillPost (dev_size / sector_size) align_sectors specs r

filled :
    (dev_size : ℕ) (specs : List MbrSpec) (r : Result Table)
    → dev_size % sector_size ≡ 0
    → length specs ≤ 4
    → FillPost (dev_size / sector_size) align_sectors specs r
    → MbrPost dev_size specs r
filled dev_size specs (ok t) whole four h = (whole, four, h)
filled dev_size specs (err fill_not_last) whole four h = (whole, four, h)
filled dev_size specs (err disk_too_small) whole four h = inr h
filled dev_size specs (err no_specs) whole four h = absurd h
filled dev_size specs (err bad_disk_size) whole four h = absurd h
filled dev_size specs (err too_many_primaries) whole four h = absurd h
filled dev_size specs (err device_error) whole four h = absurd h
filled dev_size specs panic whole four h = absurd h

-- The partitions of a table that is built.
abbrev pub parts_of : Result Table → List Partition
parts_of (ok t) = t.parts
parts_of _ = []

-- A sized spec that ends within the last 2048-sector unit of the disk, but does not reach the disk's
-- end, leaves no aligned place; a filling spec behind it is accepted all the same, and its partition
-- begins at the disk's end or behind it.
pub build_mbr_outside :
    (dev_size : ℕ) (s f : MbrSpec)
    → dev_size < 2 ^ 63
    → dev_size % sector_size ≡ 0
    → align_sectors + align_sectors ≤ dev_size / sector_size
    → 0 < s.size
    → f.size ≡ 0
    → align_sectors + secs_of s ≤ dev_size / sector_size
    → dev_size / sector_size ≤ align (align_sectors + secs_of s) align_sectors
    → let c : ℕ = align (align_sectors + secs_of s) align_sectors in
      (parts_of (build_mbr dev_size (s ∷ f ∷ []))
        ≡ primary s align_sectors (secs_of s)
          ∷ primary f c (remaining (dev_size / sector_size) c)
          ∷ [])
      × (dev_size / sector_size ≤ (primary f c (remaining (dev_size / sector_size) c)).start_lba)
unfolding build_mbr fill_table primary
build_mbr_outside dev_size s f int whole room pos fills fits out =
    let a : not (dev_size % sector_size == 0) ≡ false = ground arith in
    let b : ltb (dev_size / sector_size) (align_sectors + align_sectors) ≡ false = ground arith in
    let c : s.size == 0 ≡ false = ground arith in
    let d : f.size == 0 ≡ true = ground arith in
    let e : ltb (dev_size / sector_size) (align_sectors + secs_of s) ≡ false = ground arith in
    let n : (align_sectors + secs_of s) % u64 ≡ align_sectors + secs_of s = omega arith in
    (rw (a, b, c, e, n, d), out)
