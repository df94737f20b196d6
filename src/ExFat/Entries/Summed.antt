-- ===== src/ExFat/Entries/Summed.antt =====
-- The entry set of a file carries its sum, and stays within its place.
use fsforge.Common.{
  ℕ, zero, suc, ◌+◌, ◌*◌, ◌^◌, ◌≤◌, ◌<◌, ◌≡◌, refl, sym, ap, ◌∙◌, Bool, true, false, ◌&&◌, leb,
  leb→le, List, [], ◌∷◌, ◌++◌, length, take, drop, length-take, Bytes, le_bytes, length-le_bytes,
  Field, field_off, field_width, field_bytes, length-field_bytes, put_field, put_fields,
  length-put_fields, length-overwrite, get_le, le_read_back, drop-overwrite_behind,
  take-overwrite_inside, arith,
}
use fsforge.ExFat.Sums.{set_skip, set_checksum, u16, sum_from-overwrite, sum_from_fits16}
use fsforge.ExFat.Entries.{
  ChildInfo, name_entries, file_entry, stream_entry, unit_fields, name_fields, set_size, filled_set,
  put_file_set,
}

-- Every field ends at `n` or before.
unfoldable within : ℕ → List Field → Bool
within n [] = true
within n (f ∷ fs) = leb (field_off f + field_width f) n && within n fs

pub both_hold : (x y : Bool) → x && y ≡ true → (x ≡ true) × (y ≡ true)
both_hold true true h = (refl, refl)
both_hold true false h = absurd (ground arith)
both_hold false y h = absurd (ground arith)

pub joined : (x y : Bool) → x ≡ true → y ≡ true → x && y ≡ true
joined x y h k = rw (h, k) refl

drop-put_fields :
    (n : ℕ) (fs : List Field) (b : Bytes) → within n fs ≡ true → drop n (put_fields fs b) ≡ drop n b
unfolding within put_fields put_field
drop-put_fields n [] b h = refl
drop-put_fields n (f ∷ fs) b h =
    let t = both_hold _ _ h in
    let ends = leb→le (field_off f + field_width f) n t.0 in
    drop-put_fields n fs _ t.1
    ∙ drop-overwrite_behind n (field_off f) (field_bytes f) b (omega (arith, length-field_bytes f))

within-append :
    (n : ℕ) (xs ys : List Field)
    → within n xs ≡ true
    → within n ys ≡ true
    → within n (xs ++ ys) ≡ true
unfolding within
within-append n [] ys h k = k
within-append n (x ∷ xs) ys h k =
    let t = both_hold _ _ h in joined _ _ t.0 (within-append n xs ys t.1 k)

within-unit_fields :
    (n off : ℕ) (us : List ℕ) → off + 2 * length us ≤ n → within n (unit_fields off us) ≡ true
unfolding within unit_fields field_off field_width
within-unit_fields n off [] h = refl
within-unit_fields n off (u ∷ us) h =
    let t : leb (off + 2) n ≡ true = ground arith in
    joined _ _ t (within-unit_fields n (off + 2) us (omega arith))

within-name_fields :
    (n count k : ℕ) (units : List ℕ)
    → (2 + k + count) * 32 ≤ n
    → within n (name_fields count k units) ≡ true
unfolding within name_fields field_off field_width
within-name_fields n zero k units h = refl
within-name_fields n (suc count) k units h =
    let chunk = take 15 (drop (k * 15) units) in
    let short : length chunk ≤ 15 = omega (arith, length-take 15 (drop (k * 15) units)) in
    let t : leb ((2 + k) * 32 + 1) n ≡ true = ground arith in
    joined _ _ t (
      within-append n (unit_fields ((2 + k) * 32 + 2) chunk) (name_fields count (k + 1) units)
        (within-unit_fields n _ chunk (omega arith))
        (within-name_fields n count (k + 1) units (omega arith)))

within_more : (m n : ℕ) (fs : List Field) → within m fs ≡ true → m ≤ n → within n fs ≡ true
unfolding within
within_more m n [] h up = refl
within_more m n (f ∷ fs) h up =
    let t = both_hold _ _ h in
    let ends = leb→le (field_off f + field_width f) m t.0 in
    let v : leb (field_off f + field_width f) n ≡ true = ground arith in
    joined _ _ v (within_more m n fs t.1 up)

entries_within :
    (ci : ChildInfo) → (within 64 (file_entry ci) ≡ true) × (within 64 (stream_entry ci) ≡ true)
unfolding within file_entry stream_entry field_off field_width
entries_within ci = (refl, refl)

drop-filled_set :
    (b : Bytes) (ci : ChildInfo) → drop (set_size ci) (filled_set b ci) ≡ drop (set_size ci) b
unfolding filled_set
drop-filled_set b ci =
    let n = set_size ci in
    let e = entries_within ci in
    let more : 64 ≤ n = omega arith in
    drop-put_fields n (name_fields (name_entries ci.units) 0 ci.units) _
      (within-name_fields n (name_entries ci.units) 0 ci.units (omega arith))
    ∙ drop-put_fields n (stream_entry ci) _ (within_more 64 n _ e.1 more)
    ∙ drop-put_fields n (file_entry ci) b (within_more 64 n _ e.0 more)

length-filled_set : (b : Bytes) (ci : ChildInfo) → length (filled_set b ci) ≡ length b
unfolding filled_set
length-filled_set b ci = length-put_fields _ _ ∙ length-put_fields _ _ ∙ length-put_fields _ b

-- A set of entries in its buffer `b'`, with what stood behind it in `b`.
pub record IsSummed (b b' : Bytes) (size : ℕ) : Type 0 where
  pub same_size : length b' ≡ length b
  pub summed : get_le 2 2 b' ≡ set_checksum (take size b')
  pub behind : drop size b' ≡ drop size b

-- In a buffer with room for the set, putFileSet stores in the set's first entry the sum of the
-- whole set as it then stands, with the name's entries, and it changes nothing behind the set.
pub put_file_set-IsSummed :
    (b : Bytes) (ci : ChildInfo)
    → set_size ci ≤ length b
    → IsSummed b (put_file_set b ci).0 (put_file_set b ci).1
unfolding put_file_set set_checksum
put_file_set-IsSummed b ci room =
    let set = filled_set b ci in
    let n = set_size ci in
    let sum = set_checksum (take n set) in
    let p = le_bytes 2 sum in
    let wide = length-le_bytes 2 sum in
    let len = length-filled_set b ci in
    let small : sum < 256 ^ 2 = sum_from_fits16 set_skip 0 0 (take n set) (omega arith) in
    record {
      same_size = length-overwrite 2 p set ∙ len;
      summed =
          le_read_back 2 2 sum set small (omega arith)
          ∙ sym (
              ap set_checksum (take-overwrite_inside n 2 p set (omega arith))
              ∙ sum_from-overwrite set_skip u16 0 0 2 p (take n set)
                  (λ k lo hi. let e : 0 + k ≡ k = omega arith in rw e (ground arith)));
      behind = drop-overwrite_behind n 2 p set (omega arith) ∙ drop-filled_set b ci;
    }
