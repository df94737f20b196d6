-- ===== src/Partition/Gpt/Layout.antt =====
-- The ranges that `FormatGPT` assigns.
use fsforge.Common.{ℕ, ◌+◌, ◌-◌, ◌*◌, ◌/◌, ◌%◌, ◌≤◌, ◌<◌, ◌≡◌, ◌⊎◌, List, [], ◌∷◌}
use fsforge.Partition.{
  Result, ok, err, no_specs, fill_not_last, disk_too_small, bad_disk_size, sector_size,
  align_sectors, align,
}
use fsforge.Partition.Gpt.{Spec, Range, first_usable_lba, entry_array_secs, last_usable_lba}

-- The ranges of `specs`, from LBA `cur` on: each begins at a multiple of 2048 behind the one before,
-- ends at `last` or before, and has the sectors that its size needs; the filling one ends at `last`.
pub data IsPlaced (last : ℕ) : ℕ → List Spec → List Range → Type 0 where
  done : {cur : ℕ} → IsPlaced last cur [] []
  fill :
      {cur : ℕ} {s : Spec} {r : Range}
      → s.size ≡ 0
      → r.spec ≡ s
      → cur ≤ r.start_lba
      → r.start_lba % align_sectors ≡ 0
      → r.start_lba ≤ r.end_lba
      → r.end_lba ≡ last
      → IsPlaced last cur (s ∷ []) (r ∷ [])
  sized :
      {cur : ℕ} {s : Spec} {ss : List Spec} {r : Range} {rs : List Range}
      → 0 < s.size
      → r.spec ≡ s
      → cur ≤ r.start_lba
      → r.start_lba % align_sectors ≡ 0
      → r.start_lba ≤ r.end_lba
      → r.end_lba ≤ last
      → s.size ≤ (r.end_lba + 1 - r.start_lba) * sector_size
      → (r.end_lba + 1 - r.start_lba) * sector_size < s.size + sector_size
      → IsPlaced last (r.end_lba + 1) ss rs
      → IsPlaced last cur (s ∷ ss) (r ∷ rs)

-- A spec that fills stands before another one.
pub data FillsEarly : List Spec → Type 0 where
  here : {s s' : Spec} {ss : List Spec} → s.size ≡ 0 → FillsEarly (s ∷ s' ∷ ss)
  later : {s : Spec} {ss : List Spec} → FillsEarly ss → FillsEarly (s ∷ ss)

-- Where the specs end when each is placed at the next multiple of 2048.
pub data Overflows (last : ℕ) : ℕ → List Spec → Type 0 where
  no_fill :
      {cur : ℕ} {s : Spec}
      → s.size ≡ 0
      → last < align cur align_sectors
      → Overflows last cur (s ∷ [])
  no_room :
      {cur : ℕ} {s : Spec} {ss : List Spec}
      → 0 < s.size
      → last + 1 < align cur align_sectors + (s.size + sector_size - 1) / sector_size
      → Overflows last cur (s ∷ ss)
  behind :
      {cur : ℕ} {s : Spec} {ss : List Spec}
      → Overflows last (align cur align_sectors + (s.size + sector_size - 1) / sector_size) ss
      → Overflows last cur (s ∷ ss)

abbrev pub AssignPost : ℕ → ℕ → List Spec → Result (List Range) → Type 0
AssignPost last cur specs (ok rs) = IsPlaced last cur specs rs
AssignPost last cur specs (err fill_not_last) = FillsEarly specs
AssignPost last cur specs (err disk_too_small) = Overflows last cur specs
AssignPost last cur specs _ = ⊥

abbrev pub PlanPost : ℕ → List Spec → Result (List Range) → Type 0
PlanPost dev_size specs (err no_specs) = specs ≡ []
PlanPost dev_size specs (err bad_disk_size) = 0 < dev_size % sector_size
PlanPost dev_size specs (err disk_too_small) =
    (dev_size / sector_size < first_usable_lba + entry_array_secs + align_sectors)
    ⊎ Overflows (last_usable_lba (dev_size / sector_size)) first_usable_lba specs
PlanPost dev_size specs r =
    (dev_size % sector_size ≡ 0)
    × (first_usable_lba + entry_array_secs + align_sectors ≤ dev_size / sector_size)
    × AssignPost (last_usable_lba (dev_size / sector_size)) first_usable_lba specs r
