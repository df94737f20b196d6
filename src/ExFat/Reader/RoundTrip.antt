-- ===== src/ExFat/Reader/RoundTrip.antt =====
-- The entry set of a file is read back as it was written.
use fsforge.Common.{
  ℕ, ◌+◌, ◌-◌, ◌*◌, ◌/◌, ◌%◌, ◌^◌, ◌≤◌, ◌<◌, ◌≡◌, refl, ap, ◌∙◌, inl, inr, ◌⊎◌, Bool, true, false,
  ◌||◌, ltb, ◌==◌, if◌then◌else◌, some, length, get_elem?, Bytes, slice, le_bytes, length-le_bytes,
  le_value, le, field_off, field_width, put_fields, length-put_fields, slice-put_fields,
  get_le-put_fields, avoids, safe, slice-overwrite_apart, get_le, take, arith,
}
use fsforge.ExFat.Sums.{set_checksum}
use fsforge.ExFat.Entries.{
  ChildInfo, timestamp, file_attr, name_entries, file_entry, stream_entry, name_fields, set_size,
  filled_set, put_file_set,
}
use fsforge.ExFat.Entries.Summed.{put_file_set-IsSummed}
use fsforge.ExFat.Reader.{FileSet, parsed, name_loop, parse_file_set}
use fsforge.ExFat.Reader.Names.{Units, avoids-name_fields, name_loop-name_fields}

-- What fits the format: a name of at most 255 units, and numbers within their fields.
pub record Encodable (ci : ChildInfo) : Type 0 where
  pub units : Units ci.units
  pub short : length ci.units < 256
  pub month : ci.mod_time.month < 16
  pub day : ci.mod_time.day < 32
  pub hour : ci.mod_time.hour < 32
  pub minute : ci.mod_time.minute < 64
  pub second : ci.mod_time.second < 64
  pub clus : ci.first_clus < 2 ^ 32
  pub size : ci.data_length < 2 ^ 64

-- What was written of a child.
abbrev pub written : ChildInfo → FileSet
written ci = record {
  attrs = file_attr ci.is_dir;
  mod_time = timestamp ci.mod_time;
  no_fat_chain = ltb 0 ci.data_length;
  first_clus = ci.first_clus;
  data_length = ci.data_length;
  units = ci.units;
}

abbrev front : Bytes → ChildInfo → Bytes
front b ci = put_fields (stream_entry ci) (put_fields (file_entry ci) b)

-- Outside the sum's field, the set is what its entries were filled with.
slice-filled :
    (o w : ℕ) (b : Bytes) (ci : ChildInfo)
    → (o + w ≤ 2) ⊎ (4 ≤ o)
    → slice o w (put_file_set b ci).0 ≡ slice o w (filled_set b ci)
unfolding put_file_set
slice-filled o w b ci h =
    let p = le_bytes 2 (set_checksum (take (set_size ci) (filled_set b ci))) in
    let wide : length p ≡ 2 = length-le_bytes 2 _ in
    slice-overwrite_apart o w 2 p (filled_set b ci) (omega arith)

-- The first two entries, outside the sum's field.
slice-front :
    (o w : ℕ) (b : Bytes) (ci : ChildInfo)
    → (o + w ≤ 2) ⊎ (4 ≤ o)
    → o + w ≤ 64
    → slice o w (put_file_set b ci).0 ≡ slice o w (front b ci)
unfolding filled_set
slice-front o w b ci h low =
    slice-filled o w b ci h
    ∙ slice-put_fields o w (name_fields (name_entries ci.units) 0 ci.units) (front b ci)
        (avoids-name_fields o w (name_entries ci.units) 0 ci.units (omega arith))

stream_field :
    (i off w v : ℕ) (b : Bytes) (ci : ChildInfo)
    → 64 ≤ length b
    → get_elem? (stream_entry ci) i ≡ some (le off w v)
    → safe 64 (stream_entry ci) i (some (le off w v)) ≡ true
    → v < 256 ^ w
    → 4 ≤ off
    → off + w ≤ 64
    → get_le w off (put_file_set b ci).0 ≡ v
stream_field i off w v b ci room at_i ok small lo hi =
    ap le_value (slice-front off w b ci (inr lo) hi)
    ∙ get_le-put_fields 64 i off w v (stream_entry ci) (put_fields (file_entry ci) b)
        (omega (arith, length-put_fields (file_entry ci) b)) at_i ok small

file_field :
    (i off w v : ℕ) (b : Bytes) (ci : ChildInfo)
    → 64 ≤ length b
    → get_elem? (file_entry ci) i ≡ some (le off w v)
    → safe 64 (file_entry ci) i (some (le off w v)) ≡ true
    → v < 256 ^ w
    → (off + w ≤ 2) ⊎ (4 ≤ off)
    → off + w ≤ 64
    → avoids off w (stream_entry ci) ≡ true
    → get_le w off (put_file_set b ci).0 ≡ v
file_field i off w v b ci room at_i ok small lo hi apart =
    ap le_value (
      slice-front off w b ci lo hi
      ∙ slice-put_fields off w (stream_entry ci) (put_fields (file_entry ci) b) apart)
    ∙ get_le-put_fields 64 i off w v (file_entry ci) b room at_i ok small

timestamp_fits : (ci : ChildInfo) → Encodable ci → timestamp ci.mod_time < 256 ^ 4
unfolding timestamp
timestamp_fits ci e =
    let a = e.month in
    let b = e.day in let c = e.hour in let d = e.minute in let f = e.second in omega arith

attr_fits : (c : Bool) → file_attr c < 256 ^ 2
unfolding file_attr
attr_fits true = omega arith
attr_fits false = omega arith

flags_fit : (c : Bool) → (if c then 3 else 1) < 256 ^ 1
flags_fit true = omega arith
flags_fit false = omega arith

chain_flag : (c : Bool) → (if c then 3 else 1) / 2 % 2 == 1 ≡ c
chain_flag true = refl
chain_flag false = refl

enough : (l n : ℕ) → (2 + n) * 32 ≤ l → ltb l ((1 + (1 + n)) * 32) || ltb (1 + n) 1 ≡ false
enough l n h = ground arith

entries_fit : (ci : ChildInfo) → Encodable ci → 1 + name_entries ci.units < 256 ^ 1
unfolding name_entries
entries_fit ci e = let short = e.short in omega arith

-- A buffer in which the reader finds all that it looks at.
parse_found :
    (b : Bytes) (n len : ℕ) (fs : FileSet) (flags : ℕ)
    → (2 + n) * 32 ≤ length b
    → get_le 1 1 b ≡ 1 + n
    → get_le 1 32 b ≡ 192
    → get_le 2 4 b ≡ fs.attrs
    → get_le 4 12 b ≡ fs.mod_time
    → get_le 1 33 b ≡ flags
    → flags / 2 % 2 == 1 ≡ fs.no_fat_chain
    → get_le 4 52 b ≡ fs.first_clus
    → get_le 8 56 b ≡ fs.data_length
    → get_le 1 35 b ≡ len
    → name_loop n 0 len b ≡ fs.units
    → parse_file_set b ≡ parsed (2 + n) fs
unfolding parse_file_set
parse_found b n len fs flags room s ty a m f g fc dl nl nm =
    let whole = enough (length b) n room in
    let names : (1 + n) - 1 ≡ n = omega arith in
    let count : 1 + (1 + n) ≡ 2 + n = omega arith in
    rw (s, whole, ty, a, m, f, g, fc, dl, nl, names, nm, count) refl

name_found :
    (b : Bytes) (ci : ChildInfo)
    → Encodable ci
    → set_size ci ≤ length b
    → name_loop (name_entries ci.units) 0 (length ci.units) (put_file_set b ci).0 ≡ ci.units
unfolding filled_set name_entries
name_found b ci e room =
    let n = (length ci.units + 14) / 15 in
    let len =
      length-put_fields (stream_entry ci) (put_fields (file_entry ci) b)
      ∙ length-put_fields (file_entry ci) b in
    let all : length ci.units ≡ length ci.units - 0 * 15 = omega arith in
    ap (λ (want : ℕ). name_loop n 0 want (put_file_set b ci).0) all
    ∙ name_loop-name_fields n 0 ci.units (front b ci) (put_file_set b ci).0 e.units (omega arith)
        (omega arith) (λ o w lo. slice-filled o w b ci (inr (omega arith)))

-- What putFileSet writes of a child that fits the format, into a buffer with room for it, parseFileSet
-- reads back: the attributes, the packed time, the flag for a file without a chain, the first cluster,
-- the length and the name. It consumes as many entries as were written.
pub parse_file_set-put_file_set :
    (b : Bytes) (ci : ChildInfo)
    → Encodable ci
    → set_size ci ≤ length b
    → parse_file_set (put_file_set b ci).0 ≡ parsed (2 + name_entries ci.units) (written ci)
unfolding stream_entry file_entry safe avoids field_off field_width
parse_file_set-put_file_set b ci e room =
    let n = name_entries ci.units in
    let big : 64 ≤ length b = omega arith in
    let c = ltb 0 ci.data_length in
    parse_found (put_file_set b ci).0 n (length ci.units) (written ci) (if c then 3 else 1)
      (omega (arith, (put_file_set-IsSummed b ci room).same_size))
      (file_field 1 1 1 (1 + n) b ci big refl refl (entries_fit ci e) (inl (omega arith))
        (omega arith) refl)
      (stream_field 0 32 1 192 b ci big refl refl (omega arith) (omega arith) (omega arith))
      (file_field 2 4 2 (file_attr ci.is_dir) b ci big refl refl (attr_fits ci.is_dir)
        (inr (omega arith)) (omega arith) refl)
      (file_field 4 12 4 (timestamp ci.mod_time) b ci big refl refl (timestamp_fits ci e)
        (inr (omega arith)) (omega arith) refl)
      (stream_field 1 33 1 (if c then 3 else 1) b ci big refl refl (flags_fit c) (omega arith)
        (omega arith))
      (chain_flag c)
      (stream_field 5 52 4 ci.first_clus b ci big refl refl e.clus (omega arith) (omega arith))
      (stream_field 6 56 8 ci.data_length b ci big refl refl e.size (omega arith) (omega arith))
      (stream_field 2 35 1 (length ci.units) b ci big refl refl e.short (omega arith) (omega arith))
      (name_found b ci e room)
