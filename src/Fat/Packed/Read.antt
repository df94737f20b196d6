-- ===== src/Fat/Packed/Read.antt =====
-- The table on the disk: what a reader of the volume finds in it is what is in memory.
use fsforge.Common.{
  ℕ, ◌-◌, ◌*◌, ◌%◌, ◌≤◌, ◌<◌, ◌≡◌, ap, ◌∙◌, inl, inr, false, ltb, ◌==◌, if◌then◌else◌, length,
  get_or, replicate, Bytes, All-replicate, length-replicate, get_le, arith, Bool-cases,
}
use fsforge.Fat.Geometry.{sector_size}
use fsforge.Fat.Table.{Layouter}
use fsforge.Fat.Packed.{pack_all12, pack_all, fat_bytes}
use fsforge.Fat.Packed.Twelve.{entry12, entry12-pack_all12}
use fsforge.Fat.Packed.Wide.{entry-pack_all}

-- Entry `i` of a table with entries of `bits` bits; of 32 bits, 28 count.
unfoldable pub entry_of : ℕ → Bytes → ℕ → ℕ
entry_of bits raw i =
    if bits == 12
    then entry12 raw i
    else if bits == 16
    then get_le 2 (i * 2) raw
    else get_le 4 (i * 4) raw % 0x10000000

-- What an entry of `bits` bits holds of a number.
abbrev pub kept_bits : ℕ → ℕ → ℕ
kept_bits bits v =
    if bits == 12 then v % 4096 else if bits == 16 then v % 0x10000 else v % 0x10000000

-- The table's sectors have room for its entries.
abbrev pub HasRoom : Layouter → Type 0
HasRoom l =
    (if l.geo.fat_bits == 12
      then 3 * length l.fat
      else if l.geo.fat_bits == 16
      then 4 * length l.fat
      else 8 * length l.fat)
    ≤ 2 * (l.geo.fat_size_sectors * sector_size)

twice : (n : ℕ) → n % 0x10000000 % 0x10000000 ≡ n % 0x10000000
twice n = omega arith

-- Each entry is found again in the packed table.
pub fat_bytes-entry :
    (l : Layouter) (i : ℕ)
    → HasRoom l
    → i < length l.fat
    → entry_of l.geo.fat_bits (fat_bytes l) i ≡ kept_bits l.geo.fat_bits (get_or l.fat i 0)
unfolding fat_bytes entry_of
fat_bytes-entry l i room lt =
    let size = l.geo.fat_size_sectors * sector_size in
    let raw : Bytes = replicate size 0 in
    let len : length raw ≡ size = length-replicate size 0 in
    let z : ltb i 0 ≡ false = ground arith in
    let s : i - 0 ≡ i = omega arith in
    elim (Bool-cases (l.geo.fat_bits == 12)) [
      | inl e ↦
          let fits : 3 * length l.fat ≤ 2 * size = rw e at room in
          let c =
            entry12-pack_all12 0 l.fat raw i (All-replicate (λ b. b < 256) size 0 (omega arith))
              (omega arith) (omega arith) in
          let c2 : entry12 (pack_all12 0 l.fat raw) i ≡ get_or l.fat i 0 % 4096 = rw (z, s) at c in
          rw e c2
      | inr e ↦ elim (Bool-cases (l.geo.fat_bits == 16)) [
        | inl f ↦
            let fits : 4 * length l.fat ≤ 2 * size = rw (e, f) at room in
            let c =
              entry-pack_all 2 0x10000 0 l.fat raw i (λ v. omega arith) (omega arith)
                (omega arith) in
            let c2 : get_le 2 (i * 2) (pack_all 2 0x10000 0 l.fat raw)
                ≡ get_or l.fat i 0 % 0x10000 =
              rw (z, s) at c in
            rw (e, f) c2
        | inr f ↦
            let fits : 8 * length l.fat ≤ 2 * size = rw (e, f) at room in
            let c =
              entry-pack_all 4 0x10000000 0 l.fat raw i (λ v. omega arith) (omega arith)
                (omega arith) in
            let c2 : get_le 4 (i * 4) (pack_all 4 0x10000000 0 l.fat raw)
                ≡ get_or l.fat i 0 % 0x10000000 =
              rw (z, s) at c in
            rw (e, f) (ap (λ k. k % 0x10000000) c2 ∙ twice (get_or l.fat i 0))
      ]
    ]
