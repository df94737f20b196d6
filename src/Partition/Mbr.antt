-- ===== src/Partition/Mbr.antt =====
-- pkg/partition/mbr.go: `FormatMBR`. LBAs are uint64 values that wrap; the fields of an entry keep 32 bits.
pub mod Layout
mod Tests
use fsforge.Common.{
  ℕ, zero, suc, ◌+◌, ◌-◌, ◌*◌, ◌/◌, ◌%◌, ◌^◌, Bool, true, false, not, ltb, leb, ◌==◌, if◌then◌else◌,
  List, [], ◌∷◌, length, Bytes, overwrite, le_bytes, replicate, u64, u32,
}
use fsforge.Device.{Device, new_section, at}
use fsforge.Partition.{
  Result, ok, err, panic, no_specs, fill_not_last, disk_too_small, bad_disk_size,
  too_many_primaries, sector_size, align_sectors, Partition, align,
}
use fsforge.Partition.Gpt.{Done, then_write}

pub record MbrSpec : Type 0 where
  pub type_byte : ℕ
  pub size : ℕ
  pub bootable : Bool

unfoldable pub mbr_name : ℕ → Bytes
mbr_name t =
    if t == 239
    then 101 ∷ 115 ∷ 112 ∷ []
    else if t == 12
    then 102 ∷ 97 ∷ 116 ∷ 51 ∷ 50 ∷ []
    else if t == 130
    then 115 ∷ 119 ∷ 97 ∷ 112 ∷ []
    else 108 ∷ 105 ∷ 110 ∷ 117 ∷ 120 ∷ []

-- An entry at an offset of the table's sector.
unfoldable pub write_mbr_entry : ℕ → MbrSpec → ℕ → ℕ → Bytes → Bytes
write_mbr_entry off s start_lba count b =
    let b = if s.bootable then overwrite off (128 ∷ []) b else b in
    let b = overwrite (off + 1) (254 ∷ 255 ∷ 255 ∷ []) b in
    let b = overwrite (off + 4) (s.type_byte ∷ []) b in
    let b = overwrite (off + 5) (254 ∷ 255 ∷ 255 ∷ []) b in
    let b = overwrite (off + 8) (le_bytes 4 (start_lba % u32)) b in
    overwrite (off + 12) (le_bytes 4 (count % u32)) b

-- The sector that is being built, and the partitions so far.
pub record Table : Type 0 where
  pub sector : Bytes
  pub parts : List Partition

unfoldable pub primary : MbrSpec → ℕ → ℕ → Partition
primary s start count = record {
  name = mbr_name s.type_byte;
  start_lba = start;
  end_lba = (start + count + u64 - 1) % u64;
  section = new_section (start * sector_size) (count * sector_size);
}

abbrev pub add_part : Partition → Result Table → Result Table
add_part p (ok t) = ok (record { sector = t.sector; parts = p ∷ t.parts })
add_part p (err e) = err e
add_part p panic = panic

-- The number of sectors of a sized spec.
abbrev pub secs_of : MbrSpec → ℕ
secs_of s = (s.size + sector_size - 1) / sector_size

-- What a filling spec takes: `totalLBA - cur`.
abbrev pub remaining : ℕ → ℕ → ℕ
remaining total cur = (total + u64 - cur) % u64

-- The loop over the specs, from entry `i` and LBA `cur` on.
unfoldable pub fill_table : ℕ → ℕ → ℕ → List MbrSpec → Bytes → Result Table
fill_table total i cur [] b = ok (record { sector = b; parts = [] })
fill_table total i cur (s ∷ rest) b =
    let place = λ (count : ℕ). add_part (primary s cur count) (
      fill_table total (suc i) (align ((cur + count) % u64) align_sectors) rest
        (write_mbr_entry (446 + i * 16) s cur count b)) in
    if s.size == 0
    then if not (length rest == 0) then err fill_not_last else place (remaining total cur)
    else if ltb total (cur + secs_of s)
    then err disk_too_small
    else place (secs_of s)

-- The checks, and the table.
unfoldable pub build_mbr : ℕ → List MbrSpec → Result Table
build_mbr dev_size specs =
    if length specs == 0
    then err no_specs
    else if ltb 4 (length specs)
    then err too_many_primaries
    else if not (dev_size % sector_size == 0)
    then err bad_disk_size
    else if ltb (dev_size / sector_size) (align_sectors + align_sectors)
    then err disk_too_small
    else fill_table (dev_size / sector_size) 0 align_sectors specs (replicate sector_size 0)

module _ {D : Type 0} (dev : Device D) where
  abbrev pub write_mbr : D → Result Table → Done D (List Partition)
  write_mbr x (ok t) =
      then_write x (dev.write_at x (overwrite 510 (85 ∷ 170 ∷ []) t.sector) (at 0))
        λ x. (x, ok t.parts)
  write_mbr x (err e) = (x, err e)
  write_mbr x panic = (x, panic)

  unfoldable pub format_mbr : D → List MbrSpec → Done D (List Partition)
  format_mbr x specs = write_mbr x (build_mbr (dev.size x) specs)
