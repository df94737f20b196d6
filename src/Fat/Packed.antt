-- ===== src/Fat/Packed.antt =====
-- pkg/fat/fat.go: `writeFATs` and `packFAT12`, which put the table on the disk: entries of 12 bits, two to
-- three bytes, of 16 and of 32 bits. `& 0xF0` and the shifts of a byte are divisions and remainders.
pub mod Twelve
pub mod Wide
pub mod Read
pub mod Written
use fsforge.Common.{
  ℕ, zero, suc, ◌+◌, ◌*◌, ◌/◌, ◌%◌, Bool, true, false, ltb, leb, ◌==◌, if◌then◌else◌, Option, none,
  some, List, [], ◌∷◌, length, get_or, set, replicate, Bytes, overwrite, le_bytes,
}
use fsforge.Device.{Device, Error, WriteResult, wrote, write_panic, at}
use fsforge.Fat.Geometry.{Geometry, sector_size, num_fats}
use fsforge.Fat.Table.{Layouter}

unfoldable pub pack_fat12 : Bytes → ℕ → ℕ → Bytes
pack_fat12 raw i v =
    let off = i * 3 / 2 in
    if leb (length raw) (off + 1)
    then raw
    else if i % 2 == 0
    then set (set raw off (v % 256)) (off + 1) (get_or raw (off + 1) 0 / 16 * 16 + v / 256 % 16)
    else set (set raw off (get_or raw off 0 % 16 + v % 16 * 16)) (off + 1) (v / 16 % 256)

-- The loops over the entries, from entry `i` on.
unfoldable pub pack_all12 : ℕ → List ℕ → Bytes → Bytes
pack_all12 i [] raw = raw
pack_all12 i (v ∷ vs) raw = pack_all12 (i + 1) vs (pack_fat12 raw i (v % 4096))

-- `w` is 2 or 4, and `v % m` is what is kept of an entry.
unfoldable pub pack_all : ℕ → ℕ → ℕ → List ℕ → Bytes → Bytes
pack_all w m i [] raw = raw
pack_all w m i (v ∷ vs) raw =
    let rest = pack_all w m (i + 1) vs (overwrite (i * w) (le_bytes w (v % m)) raw) in
    if ltb (length raw) (i * w + w) then raw else rest

unfoldable pub fat_bytes : Layouter → Bytes
fat_bytes l =
    let raw : Bytes = replicate (l.geo.fat_size_sectors * sector_size) 0 in
    if l.geo.fat_bits == 12
    then pack_all12 0 l.fat raw
    else if l.geo.fat_bits == 16
    then pack_all 2 0x10000 0 l.fat raw
    else pack_all 4 0x10000000 0 l.fat raw

-- What `writeFATs` leaves: the device and the error, or a panic of the device.
pub data Saved (D : Type 0) : Type 0 where
  saved : D → Option Error → Saved D
  save_panic : Saved D

abbrev pub copy_offset : Layouter → ℕ → ℕ
copy_offset l f = (l.geo.reserved_secs + f * l.geo.fat_size_sectors) * sector_size

module _ {D : Type 0} (d : Device D) where
  -- The next copies, if this one was written.
  abbrev pub after_copy : (D → Saved D) → WriteResult D → Saved D
  after_copy rest write_panic = save_panic
  after_copy rest (wrote y n (some e)) = saved y (some e)
  after_copy rest (wrote y n none) = rest y

  -- `n` copies from number `f` on.
  unfoldable pub fat_copies : ℕ → ℕ → Layouter → D → Saved D
  fat_copies zero f l x = saved x none
  fat_copies (suc n) f l x =
      after_copy (fat_copies n (f + 1) l) (d.write_at x (fat_bytes l) (at (copy_offset l f)))

  unfoldable pub write_fats : Layouter → D → Saved D
  write_fats l x = fat_copies num_fats 0 l x
