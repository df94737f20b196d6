-- ===== src/Fat/Names/Long.antt =====
-- A long name is read back from the entries that were made of it.
use fsforge.Common.{
  ℕ, zero, suc, ◌+◌, ◌-◌, ◌*◌, ◌/◌, ◌%◌, ◌^◌, ◌≤◌, ◌<◌, ◌≡◌, ◌≢◌, refl, sym, ap, ◌∙◌, inl, inr, ◌⊎◌,
  Bool, true, false, ltb, leb, ◌==◌, if◌then◌else◌, ◌&&◌, Option, none, some, List, [], ◌∷◌, ◌++◌,
  length, get_elem?, get_or, take, drop, replicate, Bytes, All, arith, Bool-cases, Field, le,
  get_le, get_le-put_fields, safe, length-append, length-replicate, length-drop, length-take,
  All-drop, All-replicate, take-append-drop,
}
use fsforge.Fat.Geometry.{dir_entry_size}
use fsforge.Fat.Names.{lfn_fields, lfn_entry, lfn_ord, padded, lfn_loop, lfn_entries}
use fsforge.Fat.Names.Entry.{units_of, Units, take_whole, take_add, All-take, units_of-lfn_entry}

-- What a reader of the volume does, as the format says it: the entries of a name stand from the last piece
-- to the first, the last one marked; each says its number and the checksum of the short name that follows. The
-- name goes up to its 0. Anything else is no long name.
-- An entry with the number `ord`, for the short name with the checksum `sum`.
abbrev pub is_piece : ℕ → ℕ → Bytes → Bool
is_piece ord sum e = get_le 1 0 e == ord && get_le 1 11 e == 0xf && get_le 1 13 e == sum

abbrev pub before : Option (List ℕ) → Bytes → Option (List ℕ)
before none e = none
before (some us) e = some (us ++ units_of e)

-- The pieces from number `k` down to 1.
unfoldable pub read_pieces : ℕ → ℕ → List Bytes → Option (List ℕ)
read_pieces zero sum [] = some []
read_pieces zero sum (e ∷ es) = none
read_pieces (suc k) sum [] = none
read_pieces (suc k) sum (e ∷ es) =
    let rest = read_pieces k sum es in if is_piece (suc k) sum e then before rest e else none

unfoldable pub until_nul : List ℕ → List ℕ
until_nul [] = []
until_nul (u ∷ us) = let rest = until_nul us in if u == 0 then [] else u ∷ rest

abbrev name_of : Option (List ℕ) → Option (List ℕ)
name_of none = none
name_of (some us) = some (until_nul us)

-- The entry in front is marked with `0x40` beside its number.
unfoldable pub read_marked : ℕ → ℕ → Bytes → List Bytes → Option (List ℕ)
read_marked ord sum e es =
    if ltb 64 ord && ltb ord 128 && is_piece ord sum e
    then name_of (before (read_pieces (ord - 64 - 1) sum es) e)
    else none

unfoldable pub read_long : ℕ → List Bytes → Option (List ℕ)
read_long sum [] = none
read_long sum (e ∷ es) = read_marked (get_le 1 0 e) sum e es

-- The number, the kind and the checksum of an entry.
is_piece-lfn_entry :
    (ord sum : ℕ) (chunk : List ℕ)
    → ord < 256
    → sum < 256
    → (get_le 1 0 (lfn_entry ord sum chunk) ≡ ord)
      × (is_piece ord sum (lfn_entry ord sum chunk) ≡ true)
unfolding lfn_entry lfn_fields safe fsforge.Common.field_off fsforge.Common.field_width
    fsforge.Common.avoids
is_piece-lfn_entry ord sum chunk o s =
    let fs = lfn_fields ord sum chunk in
    let b : Bytes = replicate dir_entry_size 0 in
    let r0 : get_le 1 0 (lfn_entry ord sum chunk) ≡ ord =
      get_le-put_fields 32 0 0 1 ord fs b (omega arith) refl refl (omega arith) in
    let r1 : get_le 1 11 (lfn_entry ord sum chunk) ≡ 0xf =
      get_le-put_fields 32 1 11 1 0xf fs b (omega arith) refl refl (omega arith) in
    let r2 : get_le 1 13 (lfn_entry ord sum chunk) ≡ sum =
      get_le-put_fields 32 2 13 1 sum fs b (omega arith) refl refl (omega arith) in
    let e0 : ord == ord ≡ true = ground arith in
    let e2 : sum == sum ≡ true = ground arith in (r0, rw (r0, r1, r2, e0, e2) refl)

-- The number of a piece that is not the last one, and of the last one.
lfn_ord_inner : (count seq : ℕ) → seq < count → count < 64 → lfn_ord count seq ≡ seq
unfolding lfn_ord
lfn_ord_inner count seq lt few = let e : seq == count ≡ false = ground arith in rw e (omega arith)

lfn_ord_last : (count : ℕ) → count < 64 → lfn_ord count count ≡ count + 64
unfolding lfn_ord
lfn_ord_last count few =
    let e : count == count ≡ true = ground arith in
    let small : count % 256 ≡ count = omega arith in
    let z : count / 64 % 2 == 0 ≡ true = ground arith in rw (e, small, z) refl

-- The units of the piece before those of number `k`.
units_of_piece :
    (ord checksum k : ℕ) (us : List ℕ)
    → Units us
    → suc k * 13 ≤ length us
    → take (k * 13) us ++ units_of (lfn_entry ord checksum (take 13 (drop (k * 13) us)))
      ≡ take (suc k * 13) us
units_of_piece ord checksum k us small room =
    let chunk = take 13 (drop (k * 13) us) in
    let d = length-drop (k * 13) us in
    let len : length chunk ≡ 13 = length-take 13 (drop (k * 13) us) ∙ omega arith in
    let tail = All-drop (λ u. u < 65536) (k * 13) us small in
    let e : suc k * 13 ≡ k * 13 + 13 = omega arith in
    ap (λ r. take (k * 13) us ++ r)
      (units_of-lfn_entry ord checksum chunk (All-take 13 (drop (k * 13) us) tail) len)
    ∙ take_add (k * 13) 13 us
    ∙ ap (λ n. take n us) (sym e)

-- Read from the last entry on, the loop's entries give back its units.
read_pieces-lfn_loop :
    (count checksum k : ℕ) (us : List ℕ)
    → Units us
    → checksum < 256
    → k < count
    → count < 64
    → k * 13 ≤ length us
    → read_pieces k checksum (lfn_loop count checksum k us) ≡ some (take (k * 13) us)
unfolding read_pieces lfn_loop
read_pieces-lfn_loop count checksum zero us small sum lt few room = refl
read_pieces-lfn_loop count checksum (suc k) us small sum lt few room =
    let chunk = take 13 (drop (k * 13) us) in
    let o = lfn_ord_inner count (suc k) lt few in
    let p = is_piece-lfn_entry (suc k) checksum chunk (omega arith) sum in
    rw (o, p.1, read_pieces-lfn_loop count checksum k us small sum (omega arith) few (omega arith))
      (ap some (units_of_piece (suc k) checksum k us small room))

marked_piece :
    (ord sum k : ℕ) (e : Bytes) (es : List Bytes) (us : List ℕ)
    → ltb 64 ord ≡ true
    → ltb ord 128 ≡ true
    → is_piece ord sum e ≡ true
    → ord - 64 - 1 ≡ k
    → read_pieces k sum es ≡ some us
    → read_marked ord sum e es ≡ some (until_nul (us ++ units_of e))
unfolding read_marked
marked_piece ord sum k e es us lo hi p n r = rw (lo, hi, p, n, r) refl

read_long-lfn_loop :
    (k checksum : ℕ) (us : List ℕ)
    → Units us
    → checksum < 256
    → suc k < 64
    → suc k * 13 ≤ length us
    → read_long checksum (lfn_loop (suc k) checksum (suc k) us)
      ≡ some (until_nul (take (suc k * 13) us))
unfolding read_long lfn_loop
read_long-lfn_loop k checksum us small sum few room =
    let chunk = take 13 (drop (k * 13) us) in
    let o = lfn_ord_last (suc k) few in
    let p = is_piece-lfn_entry (suc k + 64) checksum chunk (omega arith) sum in
    let lo : ltb 64 (suc k + 64) ≡ true = ground arith in
    let hi : ltb (suc k + 64) 128 ≡ true = ground arith in
    let n : suc k + 64 - 64 - 1 ≡ k = omega arith in
    let rest = lfn_loop (suc k) checksum k us in
    let r = read_pieces-lfn_loop (suc k) checksum k us small sum (omega arith) few (omega arith) in
    ap (λ ord. read_long checksum (lfn_entry ord checksum chunk ∷ rest)) o
    ∙ ap (λ ord. read_marked ord checksum (lfn_entry (suc k + 64) checksum chunk) rest) p.0
    ∙ marked_piece (suc k + 64) checksum k (lfn_entry (suc k + 64) checksum chunk) rest
        (take (k * 13) us) lo hi p.1 n r
    ∙ ap (λ r. some (until_nul r)) (units_of_piece (suc k + 64) checksum k us small room)

until_nul-append : (us vs : List ℕ) → All (λ u. 0 < u) us → until_nul (us ++ 0 ∷ vs) ≡ us
unfolding until_nul
until_nul-append [] vs h = refl
until_nul-append (u ∷ us) vs h =
    let l = h.0 in
    let e : u == 0 ≡ false = ground arith in rw e (ap (λ r. u ∷ r) (until_nul-append us vs h.1))

Units-append : (us vs : List ℕ) → Units us → Units vs → Units (us ++ vs)
Units-append [] vs h k = k
Units-append (u ∷ us) vs h k = (h.0, Units-append us vs h.1 k)

length-padded : (us : List ℕ) → length (padded us) ≡ (length us / 13 + 1) * 13
unfolding padded
length-padded us =
    let n = (length us / 13 + 1) * 13 - length us - 1 in
    let tail : List ℕ = replicate n 0xffff in
    let r : length tail ≡ n = length-replicate n 0xffff in length-append us (0 ∷ tail) ∙ omega arith

narrow : (us : List ℕ) → All (λ u. (0 < u) × (u < 65536)) us → Units us
narrow [] h = tt
narrow (u ∷ us) h = (h.0.1, narrow us h.1)

not_nul : (us : List ℕ) → All (λ u. (0 < u) × (u < 65536)) us → All (λ u. 0 < u) us
not_nul [] h = tt
not_nul (u ∷ us) h = (h.0.0, not_nul us h.1)

padded-Units : (us : List ℕ) → All (λ u. (0 < u) × (u < 65536)) us → Units (padded us)
unfolding padded
padded-Units us h =
    let n = (length us / 13 + 1) * 13 - length us - 1 in
    Units-append us (0 ∷ replicate n 0xffff) (narrow us h)
      (omega arith, All-replicate (λ u. u < 65536) n 0xffff (omega arith))

padded_name : (us : List ℕ) → All (λ u. (0 < u) × (u < 65536)) us → until_nul (padded us) ≡ us
unfolding padded
padded_name us h =
    until_nul-append us (replicate ((length us / 13 + 1) * 13 - length us - 1) 0xffff)
      (not_nul us h)

-- The entries that lfnEntries makes of a long name, of units of 16 bits that are not 0 and of at most
-- 818 units: read by a reader of the volume, who checks the mark of the last piece, the numbers and
-- the checksum on the way to the first one, they give back the name.
pub read_long-lfn_entries :
    (units : List ℕ) (checksum : ℕ)
    → All (λ u. (0 < u) × (u < 65536)) units
    → checksum < 256
    → length units < 819
    → read_long checksum (lfn_entries units checksum) ≡ some units
unfolding lfn_entries
read_long-lfn_entries units checksum h sum short =
    let us = padded units in
    let k = length units / 13 in
    let len = length-padded units in
    let e : k + 1 ≡ suc k = omega arith in
    rw e (
      read_long-lfn_loop k checksum us (padded-Units units h) sum (omega arith) (omega arith)
      ∙ ap (λ r. some (until_nul r)) (take_whole (suc k * 13) us (omega arith))
      ∙ ap some (padded_name units h))
