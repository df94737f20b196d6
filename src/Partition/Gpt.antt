-- ===== src/Partition/Gpt.antt =====
-- pkg/partition/gpt.go: `FormatGPT`. The CRC of hash/crc32, the encoder of unicode/utf16 and the
-- disk's GUID are arguments.
pub mod Layout
mod Tests
use Prim.Native.Nat.{bit_xor}
use fsforge.Common.{
  ℕ, zero, suc, ◌+◌, ◌-◌, ◌*◌, ◌/◌, ◌%◌, ◌^◌, Bool, true, false, not, ltb, leb, ◌==◌, if◌then◌else◌,
  Option, none, some, List, [], ◌∷◌, length, get_or, set, take, Bytes, overwrite, le_bytes,
  replicate, map,
}
use fsforge.Device.{Device, new_section, at, WriteResult, wrote, write_panic}
use fsforge.Partition.{
  Result, ok, err, panic, ◌>>=◌, no_specs, fill_not_last, disk_too_small, bad_disk_size,
  device_error, sector_size, align_sectors, Partition, align,
}

abbrev pub entry_count : ℕ
entry_count = 128

abbrev pub entry_size : ℕ
entry_size = 128

abbrev pub entry_array_secs : ℕ
entry_array_secs = entry_count * entry_size / sector_size

abbrev pub primary_hdr_lba : ℕ
primary_hdr_lba = 1

abbrev pub entry_array_lba : ℕ
entry_array_lba = 2

abbrev pub first_usable_lba : ℕ
first_usable_lba = 2 + entry_array_secs

pub record Spec : Type 0 where
  pub type_guid : Bytes
  pub name : Bytes
  pub size : ℕ

-- The LBA range that a spec gets, before the section is known.
pub record Range : Type 0 where
  pub spec : Spec
  pub start_lba : ℕ
  pub end_lba : ℕ

-- The loop that assigns aligned LBA ranges from `cur` on.
unfoldable pub assign_gpt : ℕ → ℕ → List Spec → Result (List Range)
unfolding align
assign_gpt last cur [] = ok []
assign_gpt last cur (s ∷ rest) =
    let secs = (s.size + sector_size - 1) / sector_size in
    let end = cur + secs - 1 in
    let more = assign_gpt last (align (end + 1) align_sectors) rest in
    if s.size == 0
    then if not (length rest == 0)
      then err fill_not_last
      else if ltb last cur
      then err disk_too_small
      else ok (record { spec = s; start_lba = cur; end_lba = last } ∷ [])
    else if ltb last end
    then err disk_too_small
    else more >>= λ rs. ok (record { spec = s; start_lba = cur; end_lba = end } ∷ rs)

-- `g[15] ^= byte(index)`, `g[14] ^= byte(index >> 8)`
unfoldable pub derive_guid : Bytes → ℕ → Bytes
derive_guid base index =
    let g = set base 15 (bit_xor (get_or base 15 0) (index % 256)) in
    set g 14 (bit_xor (get_or g 14 0) (index / 256 % 256))

-- The units of a name, two bytes each.
unfoldable pub put_units : ℕ → List ℕ → Bytes → Bytes
put_units off [] b = b
put_units off (u ∷ us) b = put_units (off + 2) us (overwrite off (le_bytes 2 u) b)

unfoldable pub build_entry : (Bytes → List ℕ) → ℕ → Bytes → Bytes → ℕ → ℕ → Bytes → Bytes → Bytes
build_entry utf16 off typ unique first_lba last_lba name b =
    let b = overwrite off (take 16 typ) b in
    let b = overwrite (off + 16) (take 16 unique) b in
    let b = overwrite (off + 32) (le_bytes 8 first_lba) b in
    let b = overwrite (off + 40) (le_bytes 8 last_lba) b in
    put_units (off + 56) (take 36 (utf16 name)) b

-- Entry `i` on, into the entry array; `b[0:16]` panics behind its end.
unfoldable pub build_entries : (Bytes → List ℕ) → Bytes → ℕ → List Range → Bytes → Result Bytes
build_entries utf16 disk i [] b = ok b
build_entries utf16 disk i (r ∷ rs) b =
    if leb entry_count i
    then panic
    else build_entries utf16 disk (suc i) rs (
        build_entry utf16 (i * entry_size) r.spec.type_guid (derive_guid disk (suc i)) r.start_lba
          r.end_lba r.spec.name b)

-- "EFI PART"
abbrev pub signature : Bytes
signature = 69 ∷ 70 ∷ 73 ∷ 32 ∷ 80 ∷ 65 ∷ 82 ∷ 84 ∷ []

unfoldable pub build_header : (Bytes → ℕ) → ℕ → ℕ → ℕ → ℕ → ℕ → Bytes → ℕ → Bytes
build_header crc current_lba backup_lba first_usable last_usable array_lba disk entries_crc =
    let b = replicate sector_size 0 in
    let b = overwrite 0 signature b in
    let b = overwrite 8 (le_bytes 4 65536) b in
    let b = overwrite 12 (le_bytes 4 92) b in
    let b = overwrite 24 (le_bytes 8 current_lba) b in
    let b = overwrite 32 (le_bytes 8 backup_lba) b in
    let b = overwrite 40 (le_bytes 8 first_usable) b in
    let b = overwrite 48 (le_bytes 8 last_usable) b in
    let b = overwrite 56 (take 16 disk) b in
    let b = overwrite 72 (le_bytes 8 array_lba) b in
    let b = overwrite 80 (le_bytes 4 entry_count) b in
    let b = overwrite 84 (le_bytes 4 entry_size) b in
    let b = overwrite 88 (le_bytes 4 entries_crc) b in
    let b = overwrite 16 (le_bytes 4 0) b in overwrite 16 (le_bytes 4 (crc (take 92 b))) b

unfoldable pub protective_mbr : ℕ → Bytes
protective_mbr total =
    let b = replicate sector_size 0 in
    let b = overwrite 446 (0 ∷ 0 ∷ 2 ∷ 0 ∷ 238 ∷ 255 ∷ 255 ∷ 255 ∷ []) b in
    let b = overwrite 454 (le_bytes 4 1) b in
    let b =
      overwrite 458 (le_bytes 4 (if ltb 4294967295 (total - 1) then 4294967295 else total - 1)) b in
    overwrite 510 (85 ∷ 170 ∷ []) b

-- The partition of a range: `device.NewSection(dev, start*512, (end-start+1)*512)`
unfoldable pub create : Range → Partition
create r = record {
  name = r.spec.name;
  start_lba = r.start_lba;
  end_lba = r.end_lba;
  section = new_section (r.start_lba * sector_size) ((r.end_lba - r.start_lba + 1) * sector_size);
}

abbrev pub last_usable_lba : ℕ → ℕ
last_usable_lba total = total - 1 - entry_array_secs - 1

-- The checks, and the ranges.
unfoldable pub plan_gpt : ℕ → List Spec → Result (List Range)
plan_gpt dev_size specs =
    if length specs == 0
    then err no_specs
    else if not (dev_size % sector_size == 0)
    then err bad_disk_size
    else if ltb (dev_size / sector_size) (first_usable_lba + entry_array_secs + align_sectors)
    then err disk_too_small
    else assign_gpt (last_usable_lba (dev_size / sector_size))
        (align first_usable_lba align_sectors) specs

-- What a disk operation leaves.
abbrev pub Done : Type 0 → Type 0 → Type 0
Done D A = D × Result A

abbrev pub then_write : {D A : Type 0} → D → WriteResult D → (D → Done D A) → Done D A
then_write x (wrote x' n none) k = k x'
then_write x (wrote x' n (some e)) k = (x', err device_error)
then_write x write_panic k = (x, panic)

module _ {D : Type 0} (dev : Device D) (crc : Bytes → ℕ) (utf16 : Bytes → List ℕ)
    (disk : Bytes) where
  -- The five writes: protective MBR, primary array and header, backup array and header.
  unfoldable pub write_tables : D → ℕ → Bytes → List Partition → Done D (List Partition)
  write_tables x total entries parts =
      let last = last_usable_lba total in
      let backup_array = total - 1 - entry_array_secs in
      let primary =
        build_header crc primary_hdr_lba (total - 1) first_usable_lba last entry_array_lba disk
          (crc entries) in
      let backup =
        build_header crc (total - 1) primary_hdr_lba first_usable_lba last backup_array disk
          (crc entries) in
      then_write x (dev.write_at x (protective_mbr total) (at 0)) λ x.
        then_write x (dev.write_at x entries (at (entry_array_lba * sector_size))) λ x.
          then_write x (dev.write_at x primary (at (primary_hdr_lba * sector_size))) λ x.
            then_write x (dev.write_at x entries (at (backup_array * sector_size))) λ x.
              then_write x (dev.write_at x backup (at ((total - 1) * sector_size)))
                λ x. (x, ok parts)

  abbrev pub write_built : D → ℕ → List Range → Result Bytes → Done D (List Partition)
  write_built x total rs (ok entries) = write_tables x total entries (map create rs)
  write_built x total rs (err e) = (x, err e)
  write_built x total rs panic = (x, panic)

  abbrev pub write_planned : D → ℕ → Result (List Range) → Done D (List Partition)
  write_planned x total (ok rs) =
      write_built x total rs
        (build_entries utf16 disk 0 rs (replicate (entry_count * entry_size) 0))
  write_planned x total (err e) = (x, err e)
  write_planned x total panic = (x, panic)

  unfoldable pub format_gpt : D → List Spec → Done D (List Partition)
  format_gpt x specs = write_planned x (dev.size x / sector_size) (plan_gpt (dev.size x) specs)
