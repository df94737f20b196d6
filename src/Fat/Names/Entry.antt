-- ===== src/Fat/Names/Entry.antt =====
-- One entry of a long name: the 13 units that a reader finds in it are its chunk.
use fsforge.Common.{
  ℕ, zero, suc, ◌+◌, ◌-◌, ◌*◌, ◌/◌, ◌%◌, ◌^◌, ◌≤◌, ◌<◌, ◌≡◌, ◌≢◌, refl, sym, ap, ◌∙◌, inl, inr, ◌⊎◌,
  Bool, true, false, ltb, leb, ◌==◌, if◌then◌else◌, ◌&&◌, Option, none, some, List, [], ◌∷◌, ◌++◌,
  length, get_elem?, get_or, take, drop, replicate, Bytes, All, arith, Bool-cases, Field, le,
  get_le, get_le-put_fields, safe, length-append, length-replicate, length-drop, length-take,
  All-drop, All-replicate, take-append-drop,
}
use fsforge.Fat.Geometry.{dir_entry_size}
use fsforge.Fat.Names.{lfn_fields, lfn_entry}

unfoldable pub units_of : Bytes → List ℕ
units_of e =
    get_le 2 1 e
    ∷ get_le 2 3 e
    ∷ get_le 2 5 e
    ∷ get_le 2 7 e
    ∷ get_le 2 9 e
    ∷ get_le 2 14 e
    ∷ get_le 2 16 e
    ∷ get_le 2 18 e
    ∷ get_le 2 20 e
    ∷ get_le 2 22 e
    ∷ get_le 2 24 e
    ∷ get_le 2 28 e
    ∷ get_le 2 30 e
    ∷ []

abbrev pub Units : List ℕ → Type 0
Units us = All (λ u. u < 65536) us

unit_small : (us : List ℕ) (i : ℕ) → Units us → get_or us i 0 < 65536
unit_small [] i h = omega arith
unit_small (u ∷ us) zero h = h.0
unit_small (u ∷ us) (suc i) h = unit_small us i h.1

-- `n` elements from place `i` on, one by one.
unfoldable listed : ℕ → ℕ → List ℕ → List ℕ
listed zero i us = []
listed (suc n) i us = get_or us i 0 ∷ listed n (i + 1) us

drop_step : (i : ℕ) (us : List ℕ) → i < length us → drop i us ≡ get_or us i 0 ∷ drop (suc i) us
drop_step i [] h = absurd (omega arith)
drop_step zero (u ∷ us) h = refl
drop_step (suc i) (u ∷ us) h = drop_step i us (omega arith)

listed-take : (n i : ℕ) (us : List ℕ) → i + n ≤ length us → listed n i us ≡ take n (drop i us)
unfolding listed
listed-take zero i us h = refl
listed-take (suc n) i us h =
    let e : i + 1 ≡ suc i = omega arith in
    rw (drop_step i us (omega arith))
      (ap (λ l. get_or us i 0 ∷ l) (rw e (listed-take n (suc i) us (omega arith))))

-- Field `i` of an entry is unit `i - 3` of its chunk.
unit_read :
    (ord checksum : ℕ) (chunk : List ℕ) (i off k : ℕ)
    → Units chunk
    → get_elem? (lfn_fields ord checksum chunk) i ≡ some (le off 2 (get_or chunk k 0))
    → safe 32 (lfn_fields ord checksum chunk) i (some (le off 2 (get_or chunk k 0))) ≡ true
    → get_le 2 off (lfn_entry ord checksum chunk) ≡ get_or chunk k 0
unfolding lfn_entry
unit_read ord checksum chunk i off k small at free =
    get_le-put_fields 32 i off 2 (get_or chunk k 0) (lfn_fields ord checksum chunk)
      (replicate dir_entry_size 0) (omega arith) at free (unit_small chunk k small)

pub take_whole : (n : ℕ) (us : List ℕ) → length us ≤ n → take n us ≡ us
take_whole zero [] h = refl
take_whole zero (u ∷ us) h = absurd (omega arith)
take_whole (suc n) [] h = refl
take_whole (suc n) (u ∷ us) h = ap (λ r. u ∷ r) (take_whole n us (omega arith))

pub take_add : (m n : ℕ) (us : List ℕ) → take m us ++ take n (drop m us) ≡ take (m + n) us
take_add zero n us = let e : 0 + n ≡ n = omega arith in rw e refl
take_add (suc m) zero [] = let e : suc m + 0 ≡ suc m = omega arith in rw e refl
take_add (suc m) (suc n) [] = let e : suc m + suc n ≡ suc (m + suc n) = omega arith in rw e refl
take_add (suc m) n (u ∷ us) =
    let e : suc m + n ≡ suc (m + n) = omega arith in rw e (ap (λ r. u ∷ r) (take_add m n us))

pub All-take : (n : ℕ) (us : List ℕ) → Units us → Units (take n us)
All-take zero us h = tt
All-take (suc n) [] h = tt
All-take (suc n) (u ∷ us) h = (h.0, All-take n us h.1)

-- The units of an entry are its chunk.
pub units_of-lfn_entry :
    (ord checksum : ℕ) (chunk : List ℕ)
    → Units chunk
    → length chunk ≡ 13
    → units_of (lfn_entry ord checksum chunk) ≡ chunk
unfolding units_of lfn_fields safe listed fsforge.Common.field_off fsforge.Common.field_width
    fsforge.Common.avoids
units_of-lfn_entry ord checksum chunk small len =
    let r0 = unit_read ord checksum chunk 3 1 0 small refl refl in
    let r1 = unit_read ord checksum chunk 4 3 1 small refl refl in
    let r2 = unit_read ord checksum chunk 5 5 2 small refl refl in
    let r3 = unit_read ord checksum chunk 6 7 3 small refl refl in
    let r4 = unit_read ord checksum chunk 7 9 4 small refl refl in
    let r5 = unit_read ord checksum chunk 8 14 5 small refl refl in
    let r6 = unit_read ord checksum chunk 9 16 6 small refl refl in
    let r7 = unit_read ord checksum chunk 10 18 7 small refl refl in
    let r8 = unit_read ord checksum chunk 11 20 8 small refl refl in
    let r9 = unit_read ord checksum chunk 12 22 9 small refl refl in
    let r10 = unit_read ord checksum chunk 13 24 10 small refl refl in
    let r11 = unit_read ord checksum chunk 14 28 11 small refl refl in
    let r12 = unit_read ord checksum chunk 15 30 12 small refl refl in
    let all : units_of (lfn_entry ord checksum chunk) ≡ listed 13 0 chunk =
      rw (r0, r1, r2, r3, r4, r5, r6, r7, r8, r9, r10, r11, r12) refl in
    all ∙ listed-take 13 0 chunk (omega arith) ∙ take_whole 13 chunk (omega arith)
