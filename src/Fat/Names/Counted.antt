-- ===== src/Fat/Names/Counted.antt =====
-- The directory entries that are written, and those that `lfnCount` counts for them.
use fsforge.Common.{
  ltb, leb, ◌&&◌, ◌||◌, false, ◌-◌, ℕ, zero, suc, ◌+◌, ◌*◌, ◌/◌, ◌%◌, ◌<◌, ◌≡◌, refl, ap, ◌∙◌, inl,
  inr, ◌==◌, if◌then◌else◌, none, some, List, [], ◌∷◌, length, arith, Bool-cases, Option-cases,
  length-append,
}
use fsforge.Fat.Geometry.{dir_entry_size}
use fsforge.Fat.Names.{
  Runes, encode_rune, utf16_encode, ChildInfo, lfn_loop, lfn_entries, lfn_count, entry_bytes,
  child_entries, fits83, short_checksum, padded, short_entry,
}

length-lfn_loop : (count checksum k : ℕ) (us : List ℕ) → length (lfn_loop count checksum k us) ≡ k
unfolding lfn_loop
length-lfn_loop count checksum zero us = refl
length-lfn_loop count checksum (suc k) us = ap suc (length-lfn_loop count checksum k us)

-- The runes that take two units.
unfoldable pub pairs : Runes → ℕ
pairs [] = 0
pairs (r ∷ name) = (if leb 0x10000 r && leb r 0x10ffff then 1 else 0) + pairs name

length-encode_rune :
    (r : ℕ) → length (encode_rune r) ≡ 1 + (if leb 0x10000 r && leb r 0x10ffff then 1 else 0)
unfolding encode_rune
length-encode_rune r = elim (Bool-cases (ltb r 0xd800 || leb 0xe000 r && ltb r 0x10000)) [
  | inl low ↦ let e : leb 0x10000 r && leb r 0x10ffff ≡ false = ground arith in rw (low, e) refl
  | inr other ↦ elim (Bool-cases (leb 0x10000 r && leb r 0x10ffff)) [
    | inl high ↦ rw (other, high) refl
    | inr bad ↦ rw (other, bad) refl
  ]
]

length-utf16_encode : (name : Runes) → length (utf16_encode name) ≡ length name + pairs name
unfolding utf16_encode pairs
length-utf16_encode [] = refl
length-utf16_encode (r ∷ name) =
    length-append (encode_rune r) (utf16_encode name)
    ∙ omega (arith, length-encode_rune r, length-utf16_encode name)

length-child_entries :
    (ci : ChildInfo) → length (child_entries ci) ≡ (length ci.name + pairs ci.name) / 13 + 2
unfolding child_entries lfn_entries
length-child_entries ci =
    let us = utf16_encode ci.name in
    let es = lfn_entries us (short_checksum ci.short) in
    let count = length us / 13 + 1 in
    let n = length-lfn_loop count (short_checksum ci.short) count (padded us) in
    let u = length-utf16_encode ci.name in
    let whole : length us / 13 ≡ (length ci.name + pairs ci.name) / 13 = ap (λ k. k / 13) u in
    length-append es (short_entry ci ∷ []) ∙ omega arith

-- The entries of a name that are written without being counted: all long name entries of a name in 8.3
-- form, and else those that the runes with two units and the terminating 0 need beyond a unit for each rune.
unfoldable pub uncounted : Runes → ℕ
uncounted name = elim (fits83 name) [
  | some s ↦ (length name + pairs name) / 13 + 1
  | none ↦
      if pairs name == 0
      then (if length name % 13 == 0 then 1 else 0)
      else (length name + pairs name) / 13 + 1 - (length name + 12) / 13
]

-- What putChildEntries writes for a child against the room that entryBytes counts for it. For a name in
-- 8.3 form the long name entries, which are written too, are not counted. For another name without
-- surrogate pairs the entry that its terminating 0 needs is not counted where the length is a multiple of
-- 13, and else the count is right. For a name with such pairs a pair is counted as one unit, and what that
-- and the terminating 0 make of entries is not counted.
pub child_entries-uncounted :
    (ci : ChildInfo)
    → length (child_entries ci) * dir_entry_size
      ≡ entry_bytes ci.name + uncounted ci.name * dir_entry_size
unfolding entry_bytes lfn_count uncounted
child_entries-uncounted ci =
    let n = length-child_entries ci in
    elim (Option-cases (fits83 ci.name)) [
      | inr (s, k) ↦ rw (lfn_count, uncounted, k) (omega arith)
      | inl k ↦ elim (Bool-cases (pairs ci.name == 0)) [
        | inl none_wide ↦
            let no_pair : pairs ci.name ≡ 0 = ground arith in
            elim (Bool-cases (length ci.name % 13 == 0)) [
              | inl e ↦
                  let z : length ci.name % 13 ≡ 0 = ground arith in
                  rw (lfn_count, uncounted, k, none_wide, e) (omega arith)
              | inr e ↦
                  let z : 0 < length ci.name % 13 = ground arith in
                  rw (lfn_count, uncounted, k, none_wide, e) (omega arith)
            ]
        | inr wide ↦ rw (lfn_count, uncounted, k, wide) (omega arith)
      ]
    ]
