-- ===== src/ExFat/Entries.antt =====
-- pkg/exfat/dir.go, and the entry set of a file in exfat.go. A name comes as its UTF-16 units, as
-- unicode/utf16 gives them. The buffer has room for the set, which layoutDir sees to; on a shorter one Go panics.
pub mod Summed
mod Tests
use fsforge.Common.{
  ℕ, zero, suc, ◌+◌, ◌-◌, ◌*◌, ◌/◌, ◌%◌, ◌^◌, Bool, true, false, ltb, if◌then◌else◌, List, [], ◌∷◌,
  ◌++◌, length, take, drop, Bytes, overwrite, le_bytes, Field, le, put_fields,
}
use fsforge.ExFat.Sums.{set_checksum, name_hash}

abbrev pub dir_entry_size : ℕ
dir_entry_size = 32

abbrev pub ent_file : ℕ
ent_file = 0x85

abbrev pub ent_stream : ℕ
ent_stream = 0xc0

abbrev pub ent_file_name : ℕ
ent_file_name = 0xc1

abbrev pub attr_directory : ℕ
attr_directory = 0x10

abbrev pub attr_archive : ℕ
attr_archive = 0x20

abbrev pub flag_alloc_possible : ℕ
flag_alloc_possible = 1

abbrev pub flag_no_fat_chain : ℕ
flag_no_fat_chain = 2

-- A time in UTC, as Go's accessors give it.
pub record Civil : Type 0 where
  pub year : ℕ
  pub month : ℕ
  pub day : ℕ
  pub hour : ℕ
  pub minute : ℕ
  pub second : ℕ

-- `packed`. Each part but the year is within its bits.
unfoldable pub timestamp : Civil → ℕ
timestamp t =
    let y = if ltb t.year 1980 then 1980 else t.year in
    t.second / 2
    + t.minute * 2 ^ 5
    + t.hour * 2 ^ 11
    + t.day * 2 ^ 16
    + t.month * 2 ^ 21
    + (y - 1980) % 2 ^ 7 * 2 ^ 25

-- `tenms`
unfoldable pub tenms : Civil → ℕ
tenms t = t.second % 2 * 100

unfoldable pub file_attr : Bool → ℕ
file_attr is_dir = if is_dir then attr_directory else attr_archive

unfoldable pub name_entries : List ℕ → ℕ
name_entries units = (length units + 14) / 15

pub record ChildInfo : Type 0 where
  pub units : List ℕ
  pub is_dir : Bool
  pub mod_time : Civil
  pub data_length : ℕ
  pub first_clus : ℕ

unfoldable pub file_entry : ChildInfo → List Field
file_entry ci =
    le 0 1 ent_file
    ∷ le 1 1 (1 + name_entries ci.units)
    ∷ le 4 2 (file_attr ci.is_dir)
    ∷ le 8 4 (timestamp ci.mod_time)
    ∷ le 12 4 (timestamp ci.mod_time)
    ∷ le 16 4 (timestamp ci.mod_time)
    ∷ le 20 1 (tenms ci.mod_time)
    ∷ le 21 1 (tenms ci.mod_time)
    ∷ le 22 1 0
    ∷ le 23 1 0
    ∷ le 24 1 0
    ∷ []

unfoldable pub stream_entry : ChildInfo → List Field
stream_entry ci =
    le 32 1 ent_stream
    ∷ le 33 1 (
        if ltb 0 ci.data_length
        then flag_alloc_possible + flag_no_fat_chain
        else flag_alloc_possible)
    ∷ le 35 1 (length ci.units)
    ∷ le 36 2 (name_hash ci.units)
    ∷ le 40 8 ci.data_length
    ∷ le 52 4 ci.first_clus
    ∷ le 56 8 ci.data_length
    ∷ []

-- The units of a chunk, from `off` on.
unfoldable pub unit_fields : ℕ → List ℕ → List Field
unit_fields off [] = []
unit_fields off (u ∷ us) = le off 2 u ∷ unit_fields (off + 2) us

-- `n` name entries, from number `k` on.
unfoldable pub name_fields : ℕ → ℕ → List ℕ → List Field
name_fields zero k units = []
name_fields (suc n) k units =
    let ne = (2 + k) * dir_entry_size in
    le ne 1 ent_file_name
    ∷ (unit_fields (ne + 2) (take 15 (drop (k * 15) units)) ++ name_fields n (k + 1) units)

abbrev pub set_size : ChildInfo → ℕ
set_size ci = (2 + name_entries ci.units) * dir_entry_size

unfoldable pub filled_set : Bytes → ChildInfo → Bytes
filled_set b ci =
    put_fields (name_fields (name_entries ci.units) 0 ci.units)
      (put_fields (stream_entry ci) (put_fields (file_entry ci) b))

-- The buffer with the set at its front, and the set's size.
unfoldable pub put_file_set : Bytes → ChildInfo → Bytes × ℕ
put_file_set b ci =
    let set = filled_set b ci in
    (overwrite 2 (le_bytes 2 (set_checksum (take (set_size ci) set))) set, set_size ci)
