-- ===== src/Fat/Packed/Written.antt =====
-- The copies of the table that `writeFATs` leaves on an in-memory device.
use mathlib.Core.Path.{subst}
use fsforge.Common.{
  ℕ, zero, suc, ◌+◌, ◌*◌, ◌≤◌, ◌<◌, ◌≡◌, refl, ap, ◌∙◌, inl, inr, none, length, get_or, take, drop,
  slice, Bytes, List, [], ◌∷◌, ◌==◌, ltb, Bool-cases, length-replicate, replicate, overwrite,
  length-overwrite, slice-overwrite_self, slice-overwrite_apart, drop-overwrite_behind,
  take-overwrite_before, arith,
}
use fsforge.Device.{Mem, mem_device, i63}
use fsforge.Device.Memory.{mem_write_at-inside}
use fsforge.Fat.Geometry.{sector_size}
use fsforge.Fat.Table.{Layouter}
use fsforge.Fat.Packed.{
  pack_all12, pack_all, fat_bytes, saved, copy_offset, after_copy, fat_copies, write_fats,
}
use fsforge.Fat.Packed.Twelve.{length-pack_fat12}
use fsforge.Fat.Packed.Read.{entry_of, kept_bits, HasRoom, fat_bytes-entry}

length-pack_all12 : (i : ℕ) (vs : List ℕ) (raw : Bytes) → length (pack_all12 i vs raw) ≡ length raw
unfolding pack_all12
length-pack_all12 i [] raw = refl
length-pack_all12 i (v ∷ vs) raw = length-pack_all12 (i + 1) vs _ ∙ length-pack_fat12 raw i _

length-pack_all :
    (w m i : ℕ) (vs : List ℕ) (raw : Bytes) → length (pack_all w m i vs raw) ≡ length raw
unfolding pack_all
length-pack_all w m i [] raw = refl
length-pack_all w m i (v ∷ vs) raw = elim (Bool-cases (ltb (length raw) (i * w + w))) [
  | inl e ↦ rw e refl
  | inr e ↦ rw e (length-pack_all w m (i + 1) vs _ ∙ length-overwrite (i * w) _ raw)
]

length-fat_bytes : (l : Layouter) → length (fat_bytes l) ≡ l.geo.fat_size_sectors * sector_size
unfolding fat_bytes
length-fat_bytes l =
    let size = l.geo.fat_size_sectors * sector_size in
    let raw : Bytes = replicate size 0 in
    let n : length raw ≡ size = length-replicate size 0 in
    elim (Bool-cases (l.geo.fat_bits == 12)) [
      | inl e ↦ rw e (length-pack_all12 0 l.fat raw ∙ n)
      | inr e ↦ elim (Bool-cases (l.geo.fat_bits == 16)) [
        | inl f ↦ rw (e, f) (length-pack_all 2 0x10000 0 l.fat raw ∙ n)
        | inr f ↦ rw (e, f) (length-pack_all 4 0x10000000 0 l.fat raw ∙ n)
      ]
    ]

-- A copy is written, and the next ones follow.
then_copies :
    (n f : ℕ) (l : Layouter) (m : Mem)
    → copy_offset l f + length (fat_bytes l) ≤ length m.buffer
    → length m.buffer < i63
    → fat_copies mem_device (suc n) f l m
      ≡ fat_copies mem_device n
          (f + 1)
          l
          (record { buffer = overwrite (copy_offset l f) (fat_bytes l) m.buffer })
unfolding fat_copies
then_copies n f l m room small =
    ap (after_copy mem_device (fat_copies mem_device n (f + 1) l))
      (mem_write_at-inside m (fat_bytes l) (copy_offset l f) room small)

-- The sectors of copy `f`.
abbrev pub copy_of : Layouter → ℕ → Mem → Bytes
copy_of l f m =
    slice ((l.geo.reserved_secs + f * l.geo.fat_size_sectors) * sector_size)
      (l.geo.fat_size_sectors * sector_size) m.buffer

abbrev pub table_end : Layouter → ℕ
table_end l = (l.geo.reserved_secs + 2 * l.geo.fat_size_sectors) * sector_size

-- The table stands in both copies, and the rest of the device is as before.
pub record AreCopies (l : Layouter) (m m' : Mem) : Type 0 where
  pub entries :
      (f i : ℕ)
      → f < 2
      → i < length l.fat
      → entry_of l.geo.fat_bits (copy_of l f m') i ≡ kept_bits l.geo.fat_bits (get_or l.fat i 0)
  pub before :
      take (l.geo.reserved_secs * sector_size) m'.buffer
      ≡ take (l.geo.reserved_secs * sector_size) m.buffer
  pub behind : drop (table_end l) m'.buffer ≡ drop (table_end l) m.buffer

abbrev both : Layouter → Mem → Mem
both l m = record {
  buffer =
      overwrite (copy_offset l 1) (fat_bytes l)
        (overwrite (copy_offset l 0) (fat_bytes l) m.buffer);
}

first_copy :
    (l : Layouter) (m : Mem) → table_end l ≤ length m.buffer → copy_of l 0 (both l m) ≡ fat_bytes l
first_copy l m room =
    let b = overwrite (copy_offset l 0) (fat_bytes l) m.buffer in
    let n = length-fat_bytes l in
    slice-overwrite_apart (copy_offset l 0) (l.geo.fat_size_sectors * sector_size) (copy_offset l 1)
      (fat_bytes l) b (inl (omega arith))
    ∙ subst (λ k. slice (copy_offset l 0) k b ≡ fat_bytes l) n
        (slice-overwrite_self (copy_offset l 0) (fat_bytes l) m.buffer (omega arith))

second_copy :
    (l : Layouter) (m : Mem) → table_end l ≤ length m.buffer → copy_of l 1 (both l m) ≡ fat_bytes l
second_copy l m room =
    let b = overwrite (copy_offset l 0) (fat_bytes l) m.buffer in
    let n = length-fat_bytes l in
    let len = length-overwrite (copy_offset l 0) (fat_bytes l) m.buffer in
    subst
      (λ k. slice (copy_offset l 1) k (overwrite (copy_offset l 1) (fat_bytes l) b) ≡ fat_bytes l) n
      (slice-overwrite_self (copy_offset l 1) (fat_bytes l) b (omega arith))

which_copy :
    (l : Layouter) (m : Mem) (f : ℕ)
    → table_end l ≤ length m.buffer
    → f < 2
    → copy_of l f (both l m) ≡ fat_bytes l
which_copy l m zero room lt = first_copy l m room
which_copy l m (suc zero) room lt = second_copy l m room
which_copy l m (suc (suc f)) room lt = absurd (omega arith)

-- WriteFATs for FAT12, FAT16 and FAT32, with room for every entry, on an in-memory device below 2^63 bytes
-- that holds both copies: it succeeds, and each entry of the table is found again in each of the two
-- copies, behind the reserved sectors and one behind the other, in its 12, 16 or 28 bits, also where two
-- entries of 12 bits share a byte. The rest of the device stays.
pub write_fats-AreCopies :
    (l : Layouter) (m : Mem)
    → HasRoom l
    → table_end l ≤ length m.buffer
    → length m.buffer < i63
    → (m' : Mem) × (write_fats mem_device l m ≡ saved m' none) × AreCopies l m m'
unfolding write_fats fat_copies
write_fats-AreCopies l m room wide small =
    let n = length-fat_bytes l in
    let first : Mem = record { buffer = overwrite (copy_offset l 0) (fat_bytes l) m.buffer } in
    let len = length-overwrite (copy_offset l 0) (fat_bytes l) m.buffer in
    (
      both l m,
      then_copies 1 0 l m (omega arith) small ∙ then_copies 0 1 l first (omega arith) (omega arith),
      record {
        entries = λ f i lt inside.
            ap (λ (b : Bytes). entry_of l.geo.fat_bits b i) (which_copy l m f wide lt)
            ∙ fat_bytes-entry l i room inside;
        before =
            take-overwrite_before (l.geo.reserved_secs * sector_size) (copy_offset l 1)
              (fat_bytes l) first.buffer (omega arith)
            ∙ take-overwrite_before (l.geo.reserved_secs * sector_size) (copy_offset l 0)
                (fat_bytes l) m.buffer (omega arith);
        behind =
            drop-overwrite_behind (table_end l) (copy_offset l 1) (fat_bytes l) first.buffer
              (omega arith)
            ∙ drop-overwrite_behind (table_end l) (copy_offset l 0) (fat_bytes l) m.buffer
                (omega arith);
      },
    )
